-- ===== src/LinkedList/Contents.antt =====
-- The items of a list of list.c in order, and what the calls that change one place do to them.
use bflib.Base.{
  ℕ, ◌+◌, ◌≤◌, ◌<◌, ◌≡◌, ◌≢◌, refl, sym, ap, ◌∙◌, Option, some, List, [], ◌∷◌, ◌++◌, arith, length,
  length-append,
}
use bflib.TailQueue.{TailQueue, NotIn, IsDistinct}
use bflib.LinkedList.{LinkedList, store, list_create}

module _ {A : Type 0} where
  abbrev pub addrs : List (ℕ × A) → List ℕ
  addrs [] = []
  addrs ((a, x) ∷ es) = a ∷ addrs es

  abbrev pub values : List (ℕ × A) → List A
  values [] = []
  values ((a, x) ∷ es) = x ∷ values es

  -- the struct ListItem of every address is live and holds its item
  abbrev pub Cells : (ℕ → Option A) → ℕ → List (ℕ × A) → Type 0
  Cells item fresh [] = Unit
  Cells item fresh ((a, x) ∷ es) = (item a ≡ some x) × (a < fresh) × Cells item fresh es

  pub addrs-append : (xs ys : List (ℕ × A)) → addrs (xs ++ ys) ≡ addrs xs ++ addrs ys
  addrs-append [] ys = refl
  addrs-append ((a, x) ∷ xs) ys = ap (◌∷◌ a) (addrs-append xs ys)

  pub values-append : (xs ys : List (ℕ × A)) → values (xs ++ ys) ≡ values xs ++ values ys
  values-append [] ys = refl
  values-append ((a, x) ∷ xs) ys = ap (◌∷◌ x) (values-append xs ys)

  pub NotIn-fresh :
      (item : ℕ → Option A) (fresh : ℕ) (es : List (ℕ × A))
      → Cells item fresh es
      → NotIn fresh (addrs es)
  NotIn-fresh item fresh [] c = tt
  NotIn-fresh item fresh ((a, x) ∷ es) (_, below, c) = (omega arith, NotIn-fresh item fresh es c)

  pub Cells-store :
      (item : ℕ → Option A) (fresh fresh' a : ℕ) (x : Option A) (es : List (ℕ × A))
      → NotIn a (addrs es)
      → fresh ≤ fresh'
      → Cells item fresh es
      → Cells (store item a x) fresh' es
  Cells-store item fresh fresh' a x [] n le c = tt
  Cells-store item fresh fresh' a x ((b, y) ∷ es) (differ, n) le (e, below, c) =
      (ground arith, omega arith, Cells-store item fresh fresh' a x es n le c)

  pub Cells-value :
      (item : ℕ → Option A) (fresh : ℕ) (xs : List (ℕ × A)) (a : ℕ) (x : A) (ys : List (ℕ × A))
      → Cells item fresh (xs ++ ((a, x) ∷ ys))
      → item a ≡ some x
  Cells-value item fresh [] a x ys c = c.0
  Cells-value item fresh ((b, y) ∷ xs) a x ys (_, _, c) = Cells-value item fresh xs a x ys c

  -- one entry more between others
  Cells-put :
      (item : ℕ → Option A) (fresh : ℕ) (xs : List (ℕ × A)) (a : ℕ) (x : A) (ys : List (ℕ × A))
      → item a ≡ some x
      → a < fresh
      → Cells item fresh (xs ++ ys)
      → Cells item fresh (xs ++ ((a, x) ∷ ys))
  Cells-put item fresh [] a x ys e below c = (e, below, c)
  Cells-put item fresh ((b, y) ∷ xs) a x ys e below (e', below', c) =
      (e', below', Cells-put item fresh xs a x ys e below c)

  pub Cells-drop :
      (item : ℕ → Option A) (fresh : ℕ) (xs : List (ℕ × A)) (a : ℕ) (x : A) (ys : List (ℕ × A))
      → Cells item fresh (xs ++ ((a, x) ∷ ys))
      → Cells item fresh (xs ++ ys)
  Cells-drop item fresh [] a x ys (_, _, c) = c
  Cells-drop item fresh ((b, y) ∷ xs) a x ys (e, below, c) =
      (e, below, Cells-drop item fresh xs a x ys c)

NotIn-drop :
    (b : ℕ) (xs : List ℕ) (a : ℕ) (ys : List ℕ)
    → NotIn b (xs ++ (a ∷ ys))
    → (b ≢ a) × NotIn b (xs ++ ys)
NotIn-drop b [] a ys (differ, n) = (differ, n)
NotIn-drop b (x ∷ xs) a ys (differ, n) =
    let (differ', n') = NotIn-drop b xs a ys n in (differ', (differ, n'))

NotIn-put :
    (b : ℕ) (xs : List ℕ) (a : ℕ) (ys : List ℕ)
    → b ≢ a
    → NotIn b (xs ++ ys)
    → NotIn b (xs ++ (a ∷ ys))
NotIn-put b [] a ys differ n = (differ, n)
NotIn-put b (x ∷ xs) a ys differ (differ', n) = (differ', NotIn-put b xs a ys differ n)

pub IsDistinct-drop :
    (xs : List ℕ) (a : ℕ) (ys : List ℕ)
    → IsDistinct (xs ++ (a ∷ ys))
    → IsDistinct (xs ++ ys) × NotIn a (xs ++ ys)
IsDistinct-drop [] a ys (n, d) = (d, n)
IsDistinct-drop (x ∷ xs) a ys (n, d) =
    let (differ, n') = NotIn-drop x xs a ys n in
    let (d', n'') = IsDistinct-drop xs a ys d in ((n', d'), (λ e. differ (sym e), n''))

IsDistinct-put :
    (xs : List ℕ) (a : ℕ) (ys : List ℕ)
    → IsDistinct (xs ++ ys)
    → NotIn a (xs ++ ys)
    → IsDistinct (xs ++ (a ∷ ys))
IsDistinct-put [] a ys d n = (n, d)
IsDistinct-put (x ∷ xs) a ys (n, d) (differ, n') =
    (NotIn-put x xs a ys (λ e. differ (sym e)) n, IsDistinct-put xs a ys d n')

-- the list holds the entries, each an address and its item, in this order
pub record Holds {queue : TailQueue} {A : Type 0} (list : LinkedList queue A) (es : List (ℕ × A))
    : Type 0 where
  pub order : queue.order list.head ≡ addrs es
  pub distinct : IsDistinct (addrs es)
  pub cells : Cells list.item list.fresh es
  pub count : length es ≤ list.fresh

module _ {queue : TailQueue} {A : Type 0} where
  pub list_create-Holds : Holds (list_create {queue = queue} {A = A}) []
  unfolding list_create
  list_create-Holds = record {
    order = queue.order-init;
    distinct = tt;
    cells = tt;
    count = omega arith;
  }

  -- a new item between others, by a call that links it there
  pub put-Holds :
      (list : LinkedList queue A) (head : queue.Head) (x : A) (xs ys : List (ℕ × A))
      → Holds list (xs ++ ys)
      → queue.order head ≡ addrs xs ++ (list.fresh ∷ addrs ys)
      → Holds {queue = queue}
          (record {
            head = head;
            item = store list.item list.fresh (some x);
            fresh = list.fresh + 1;
          })
          (xs ++ ((list.fresh, x) ∷ ys))
  put-Holds list head x xs ys h e =
      let unused = NotIn-fresh list.item list.fresh (xs ++ ys) h.cells in
      let n = length-append xs ys in
      let n' = length-append xs ((list.fresh, x) ∷ ys) in
      let count = h.count in
      record {
        order = e ∙ sym (addrs-append xs ((list.fresh, x) ∷ ys));
        distinct = rw (addrs-append xs ((list.fresh, x) ∷ ys)) (
            IsDistinct-put (addrs xs) list.fresh (addrs ys) (rw (addrs-append xs ys) at h.distinct)
              (rw (addrs-append xs ys) at unused));
        cells = Cells-put _ _ xs list.fresh x ys (ground arith) (omega arith) (
            Cells-store list.item list.fresh (list.fresh + 1) list.fresh (some x) (xs ++ ys) unused
              (omega arith) h.cells);
        count = omega arith;
      }
