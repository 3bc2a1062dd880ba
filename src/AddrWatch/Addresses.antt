-- ===== src/AddrWatch/Addresses.antt =====
-- The addresses of a watcher: addr_watcher_create, addr_watcher_add_addr and addr_watcher_del_addr
-- (addrwatch.c).
use mathlib.Core.Path.{ap₂}
use bflib.Base.{
  All, ℕ, suc, ◌+◌, ◌<◌, ◌≡◌, ◌≢◌, refl, sym, ap, ◌∙◌, Bool, Option, none, some, List, [], ◌∷◌,
  ◌++◌, map, length, arith, Bool-cases, inl, inr,
}
use bflib.Run.{Returns, returns, Returns-bind}
use bflib.TailQueue.{TailQueue, NotIn, IsDistinct}
use bflib.LinkedList.Contents.{addrs}
use bflib.LinkedList.Walks.{Contains, first_match, without_match, list_remove_first_match_lem}
use bflib.LinkedList.Build.Sort.{list_size-Contains}
use bflib.LinkedList.Build.Results.{list_append-Contains, list_create-Contains}
use bflib.AddrWatch.{
  addr_watcher_create, addr_watcher_add_addr, addr_watcher_del_addr, add_if_new, addr_item_create,
  addr_item_match_addr, same_text, st_null, AddrItem, AddrWatcher, put_item,
}

-- the watcher has these items, in the order of its list
pub record Watches {queue : TailQueue} (watcher : AddrWatcher queue) (xs : List AddrItem)
    : Type 0 where
  pub pointers : List ℕ
  pub contents : Contains watcher.addrs pointers
  pub distinct : IsDistinct pointers
  pub below : All (λ p. p < watcher.fresh) pointers
  pub items : map watcher.items pointers ≡ xs

abbrev pub has_addr : List ℕ → AddrItem → Bool
has_addr addr x = same_text x.addr addr

-- an address is added once, in the state that is not known
abbrev pub added : List ℕ → List AddrItem → List AddrItem
added addr xs = elim (first_match (has_addr addr) xs) [
  | none ↦ xs ++ (record { addr = addr; state = st_null } ∷ [])
  | some x ↦ xs
]

pub view-kept :
    (f g : ℕ → AddrItem) (p : ℕ) (ps : List ℕ)
    → NotIn p ps
    → ((q : ℕ) → q ≢ p → f q ≡ g q)
    → map f ps ≡ map g ps
view-kept f g p [] apart same = refl
view-kept f g p (q ∷ ps) (differ, apart) same =
    ap₂ ◌∷◌ (same q (λ e. differ (sym e))) (view-kept f g p ps apart same)

abbrev pointed : (ℕ → AddrItem) → Option ℕ → Option AddrItem
pointed f none = none
pointed f (some p) = some (f p)

length-map : (f : ℕ → AddrItem) (ps : List ℕ) → length (map f ps) ≡ length ps
length-map f [] = refl
length-map f (p ∷ ps) = ap suc (length-map f ps)

module _ (f : ℕ → AddrItem) (test : AddrItem → Bool) where
  first_match-map :
      (ps : List ℕ) → first_match test (map f ps) ≡ pointed f (first_match (λ p. test (f p)) ps)
  first_match-map [] = refl
  first_match-map (p ∷ ps) = let ih = first_match-map ps in ground arith

  without_match-map :
      (ps : List ℕ) → without_match test (map f ps) ≡ map f (without_match (λ p. test (f p)) ps)
  without_match-map [] = refl
  without_match-map (p ∷ ps) = let ih = without_match-map ps in ground arith

module _ (match : ℕ → Bool) where
  without-NotIn : (a : ℕ) (ps : List ℕ) → NotIn a ps → NotIn a (without_match match ps)
  without-NotIn a [] out = tt
  without-NotIn a (p ∷ ps) (ne, out) = elim (Bool-cases (match p)) [
    | inl e ↦ rw e out
    | inr e ↦ rw e (ne, without-NotIn a ps out)
  ]

  without-IsDistinct : (ps : List ℕ) → IsDistinct ps → IsDistinct (without_match match ps)
  without-IsDistinct [] apart = tt
  without-IsDistinct (p ∷ ps) (out, apart) = elim (Bool-cases (match p)) [
    | inl e ↦ rw e apart
    | inr e ↦ rw e (without-NotIn p ps out, without-IsDistinct ps apart)
  ]

  without-All :
      (n : ℕ) (ps : List ℕ) → All (λ p. p < n) ps → All (λ p. p < n) (without_match match ps)
  without-All n [] below = tt
  without-All n (p ∷ ps) (l, below) = elim (Bool-cases (match p)) [
    | inl e ↦ rw e below
    | inr e ↦ rw e (l, without-All n ps below)
  ]

NotIn-snoc : (a n : ℕ) (ps : List ℕ) → NotIn a ps → a ≢ n → NotIn a (ps ++ (n ∷ []))
NotIn-snoc a n [] out ne = (ne, tt)
NotIn-snoc a n (p ∷ ps) (differ, out) ne = (differ, NotIn-snoc a n ps out ne)

snoc-IsDistinct :
    (n : ℕ) (ps : List ℕ) → IsDistinct ps → All (λ p. p < n) ps → IsDistinct (ps ++ (n ∷ []))
snoc-IsDistinct n [] apart below = (tt, tt)
snoc-IsDistinct n (p ∷ ps) (out, apart) (l, below) =
    (NotIn-snoc p n ps out (λ e. omega arith), snoc-IsDistinct n ps apart below)

snoc-All : (n : ℕ) (ps : List ℕ) → All (λ p. p < n) ps → All (λ p. p < n + 1) (ps ++ (n ∷ []))
snoc-All n [] below = (omega arith, tt)
snoc-All n (p ∷ ps) (l, below) = (omega arith, snoc-All n ps below)

fresh-NotIn : (n : ℕ) (ps : List ℕ) → All (λ p. p < n) ps → NotIn n ps
fresh-NotIn n [] below = tt
fresh-NotIn n (p ∷ ps) (l, below) = ((λ e. omega arith), fresh-NotIn n ps below)

map-snoc :
    (f : ℕ → AddrItem) (ps : List ℕ) (p : ℕ) → map f (ps ++ (p ∷ [])) ≡ map f ps ++ (f p ∷ [])
map-snoc f [] p = refl
map-snoc f (q ∷ ps) p = ap (◌∷◌ (f q)) (map-snoc f ps p)

put-same : (items : ℕ → AddrItem) (p : ℕ) (x : AddrItem) → put_item items p x p ≡ x
put-same items p x = ground arith

put-other :
    (items : ℕ → AddrItem) (p : ℕ) (x : AddrItem) (q : ℕ) → q ≢ p → put_item items p x q ≡ items q
put-other items p x q ne = ground arith

module _ {queue : TailQueue} where
  addr_watcher_create-Watches :
      (memory : ℕ → AddrItem) (timeout : ℕ)
      → Watches (addr_watcher_create {queue = queue} memory timeout) []
  unfolding addr_watcher_create
  addr_watcher_create-Watches memory timeout = record {
    pointers = [];
    contents = list_create-Contains;
    distinct = tt;
    below = tt;
    items = refl;
  }

  add_if_new-Watches :
      (watcher : AddrWatcher queue) (xs : List AddrItem) (addr : List ℕ) (w : Watches watcher xs)
      (found : Option ℕ)
      → found ≡ first_match (addr_item_match_addr watcher.items addr) w.pointers
      → Watches (add_if_new watcher addr found) (added addr xs)
  unfolding add_if_new addr_item_create
  add_if_new-Watches watcher xs addr w none at =
      let new : AddrItem = record { addr = addr; state = st_null } in
      let none_has : first_match (has_addr addr) xs ≡ none =
        ap (first_match (has_addr addr)) (sym w.items)
        ∙ first_match-map watcher.items (has_addr addr) w.pointers
        ∙ ap (pointed watcher.items) (sym at) in
      rw (none_has, added)
        (record {
          pointers = w.pointers ++ (watcher.fresh ∷ []);
          contents = list_append-Contains watcher.addrs watcher.fresh w.pointers w.contents;
          distinct = snoc-IsDistinct watcher.fresh w.pointers w.distinct w.below;
          below = snoc-All watcher.fresh w.pointers w.below;
          items =
              map-snoc (put_item watcher.items watcher.fresh new) w.pointers watcher.fresh
              ∙ ap₂ (λ ys y. ys ++ (y ∷ []))
                  (view-kept (put_item watcher.items watcher.fresh new) watcher.items watcher.fresh
                      w.pointers (fresh-NotIn watcher.fresh w.pointers w.below)
                      (put-other watcher.items watcher.fresh new)
                    ∙ w.items)
                  (put-same watcher.items watcher.fresh new);
        })
  add_if_new-Watches watcher xs addr w (some p) at =
      let one_has : first_match (has_addr addr) xs ≡ some (watcher.items p) =
        ap (first_match (has_addr addr)) (sym w.items)
        ∙ first_match-map watcher.items (has_addr addr) w.pointers
        ∙ ap (pointed watcher.items) (sym at) in
      rw (one_has, added) w

  length-items :
      (watcher : AddrWatcher queue) (xs : List AddrItem) (w : Watches watcher xs)
      → length w.pointers ≡ length xs
  length-items watcher xs w = sym (length-map watcher.items w.pointers) ∙ ap length w.items

  -- addr_watcher_create gives a watcher of no items. On a watcher of the items `xs`,
  -- addr_watcher_add_addr adds an item in the state ST_NULL behind them if none has the address, and
  -- changes nothing if one has; addr_watcher_del_addr takes out the first that has the address, and
  -- changes nothing if none has. Both return the number of the items that there are then.
  pub addr_watcher_add_addr_lem :
      (watcher : AddrWatcher queue) (xs : List AddrItem) (addr : List ℕ)
      → Watches watcher xs
      → ((memory : ℕ → AddrItem) (timeout : ℕ)
          → Watches (addr_watcher_create {queue = queue} memory timeout) [])
        × Returns
            (λ (size, after). (size ≡ length (added addr xs)) × Watches after (added addr xs))
            (addr_watcher_add_addr watcher addr)
        × Returns
            (λ (size, after).
              (size ≡ length (without_match (has_addr addr) xs))
              × Watches after (without_match (has_addr addr) xs))
            (addr_watcher_del_addr watcher addr)
  unfolding addr_watcher_add_addr addr_watcher_del_addr
  addr_watcher_add_addr_lem watcher xs addr w =
      let match = addr_item_match_addr watcher.items addr in
      let (find, remove) = list_remove_first_match_lem watcher.addrs match w.pointers w.contents in
      (
        addr_watcher_create-Watches,
        Returns-bind find (λ found at.
            let w' = add_if_new-Watches watcher xs addr w found at in
            Returns-bind
              (list_size-Contains (add_if_new watcher addr found).addrs w'.pointers w'.contents)
              (λ size counted.
                returns
                  (counted ∙ length-items (add_if_new watcher addr found) (added addr xs) w', w'))),
        Returns-bind remove (λ (item, addrs) (same, left).
            let w' : Watches (record watcher { addrs = addrs }) (without_match (has_addr addr) xs) =
              record {
                pointers = without_match match w.pointers;
                contents = left;
                distinct = without-IsDistinct match w.pointers w.distinct;
                below = without-All match watcher.fresh w.pointers w.below;
                items =
                    sym (without_match-map watcher.items (has_addr addr) w.pointers)
                    ∙ ap (without_match (has_addr addr)) w.items;
              } in
            Returns-bind (list_size-Contains addrs w'.pointers w'.contents) (λ size counted.
              returns (
                counted
                    ∙ length-items (record watcher { addrs = addrs })
                        (without_match (has_addr addr) xs) w',
                w',
              ))),
      )
