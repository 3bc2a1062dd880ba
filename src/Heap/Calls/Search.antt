-- ===== src/Heap/Calls/Search.antt =====
-- heap_del and heap_hipify, which find an item by its info, and heap_del_item, which searches for
-- it (heap.c).
use Prim.Native.Nat.{Ordering}
use bflib.Base.{
  ℕ, zero, suc, ◌+◌, ◌≤◌, ◌<◌, ◌≡◌, ◌⊎◌, Bool, true, false, refl, Option, none, some, arith, inl,
  inr,
}
use bflib.Run.{ok, ◌>>=◌, Returns, returns, Returns-bind, Returns-map, Returns-if}
use bflib.Heap.{Heap, block_size, heap_hipify_pos}
use bflib.Heap.Order.{IsPreorder, SpotInv}
use bflib.Heap.Memory.{Tracked, Kept, load-ok}
use bflib.Heap.Hipify.{heap_hipify_pos_lem}
use bflib.Heap.Calls.{
  del_item_loop, heap_del_item, heap_del, heap_del_pos, heap_hipify, hipify_by, del_by,
}
use bflib.Heap.Calls.Insert.{IsValid}
use bflib.Heap.Calls.Remove.{Removed, heap_del_pos_lem}

module _ {A : Type 0} (cmp : A → A → Ordering) (laws : IsPreorder cmp) where
  -- the first item that matches, at `at`, is returned and taken out
  pub record Deleted (h : Heap A) (match : A → Bool) (r : Option A × Heap A) : Type 0 where
    pub at : ℕ
    pub inside : at < h.size
    pub matches : match (h.heap at) ≡ true
    pub first : (j : ℕ) → j < at → match (h.heap j) ≡ false
    pub item : r.0 ≡ some (h.heap at)
    pub removed : Removed cmp laws h (h.heap at) r.1

  -- what heap_del_item returns: NULL and the heap as it was if no item matches
  abbrev pub Searched : Heap A → (A → Bool) → Option A × Heap A → Type 0
  Searched h match r =
      ((r ≡ (none, h)) × ((j : ℕ) → j < h.size → match (h.heap j) ≡ false)) ⊎ Deleted h match r

  del_item_loop_lem :
      (match : A → Bool) (h : Heap A) (rounds i : ℕ)
      → IsValid cmp h
      → i + rounds ≡ h.size
      → ((j : ℕ) → j < i → match (h.heap j) ≡ false)
      → Returns (Searched h match) (del_item_loop cmp match h rounds i)
  unfolding del_item_loop
  del_item_loop_lem match h zero i v e none_yet =
      returns (inl (refl, λ j p. none_yet j (omega arith)))
  del_item_loop_lem match h (suc rounds) i v e none_yet = rw (load-ok h i (omega (arith, v.fits))) (
      Returns-if (match (h.heap i))
        (λ hit. Returns-map (heap_del_pos_lem cmp laws h i v (omega arith)) λ r (item, removed).
          inr (record {
            at = i;
            inside = omega arith;
            matches = hit;
            first = none_yet;
            item = item;
            removed = removed;
          }))
        (λ miss.
          del_item_loop_lem match h rounds (i + 1) v (omega arith)
            (λ j p. ground (arith, none_yet j))))

  -- heap_del_item takes out the first item of the array that matches, or changes nothing
  pub heap_del_item_lem :
      (match : A → Bool) (h : Heap A)
      → IsValid cmp h
      → Returns (Searched h match) (heap_del_item cmp h match)
  unfolding heap_del_item
  heap_del_item_lem match h v =
      del_item_loop_lem match h h.size 0 v (omega arith) (λ j p. absurd (omega arith))

  del_by-some :
      (get_info : Option (A → ℕ)) (get : A → ℕ) (h : Heap A) (item : A) (i : ℕ)
      → get_info ≡ some get
      → h.infos (get item) ≡ i
      → del_by cmp get_info h item ≡ heap_del_pos cmp h i
  unfolding del_by
  del_by-some get_info get h item i e at = rw (e, del_by, at)

  hipify_by-some :
      (get_info : Option (A → ℕ)) (get : A → ℕ) (h : Heap A) (item : A) (i : ℕ)
      → get_info ≡ some get
      → h.infos (get item) ≡ i
      → hipify_by cmp get_info h item ≡ (heap_hipify_pos cmp h i >>= λ (g, m). ok (some item, g))
  unfolding hipify_by
  hipify_by-some get_info get h item i e at = rw (e, hipify_by, at)

  module _ (get : A → ℕ) (h : Heap A) (accessor : h.get_info ≡ some get) where
    -- heap_del of an item of the heap takes out that item, wherever it stands
    heap_del_lem :
        (i : ℕ)
        → IsValid cmp h
        → i < h.size
        → Returns
            (λ (x, g). (x ≡ some (h.heap i)) × Removed cmp laws h (h.heap i) g)
            (heap_del cmp h (h.heap i))
    unfolding heap_del
    heap_del_lem i v inside =
        let t : Tracked (some get) h.heap h.size h.infos = rw accessor at v.tracked in
        rw (del_by-some h.get_info get h (h.heap i) i accessor (t i inside))
          (heap_del_pos_lem cmp laws h i v inside)

    -- heap_hipify mends a heap in which one item has changed its place in the order, and only
    -- moves items
    pub heap_hipify_lem :
        (i : ℕ)
        → h.size ≤ h.heap_size
        → h.heap_size ≤ h.size + block_size
        → Tracked h.get_info h.heap h.size h.infos
        → SpotInv cmp h.heap h.size i
        → Returns
            (λ (x, g). (x ≡ some (h.heap i)) × IsValid cmp g × Kept h g)
            (heap_hipify cmp h (h.heap i))
    unfolding heap_hipify
    heap_hipify_lem i fits tight tracked v =
        let t : Tracked (some get) h.heap h.size h.infos = rw accessor at tracked in
        rw (hipify_by-some h.get_info get h (h.heap i) i accessor (t i v.inside)) (
          Returns-bind (heap_hipify_pos_lem cmp laws h i fits v) λ (g, m) (order, kept). returns (
            refl,
            record {
              fits = omega (arith, kept.size, kept.heap_size);
              tight = omega (arith, kept.size, kept.heap_size);
              order = order;
              tracked = kept.tracked tracked;
            },
            kept,
          ))

  -- without an accessor heap_del and heap_hipify return NULL and change nothing
  pub no_accessor :
      (h : Heap A) (item : A)
      → h.get_info ≡ none
      → (heap_del cmp h item ≡ ok (none, h)) × (heap_hipify cmp h item ≡ ok (none, h))
  unfolding heap_del heap_hipify
  no_accessor h item e = (rw (e, del_by), rw (e, hipify_by))
