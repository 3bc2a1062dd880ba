-- ===== src/LinkedList/Change.antt =====
-- The calls of list.c that change one place of a list.
use mathlib.Core.List.{append-nil, append_assoc}
use bflib.Base.{
  ℕ, ◌+◌, ◌≡◌, refl, sym, ap, ◌∙◌, none, some, List, [], ◌∷◌, ◌++◌, arith, length-append,
}
use bflib.Run.{Returns, returns}
use bflib.TailQueue.{TailQueue, IsDistinct, head?, last?}
use bflib.LinkedList.{
  LinkedList, store, value, new_item, list_append, list_unshift, list_insert_after, list_remove,
  list_next, list_prev, list_first, list_insert_before, insert_at,
}
use bflib.LinkedList.Contents.{
  addrs, addrs-append, Cells-value, Cells-store, Cells-drop, NotIn-fresh, IsDistinct-drop, Holds,
  put-Holds,
}

last?-cons : (a : ℕ) (rest : List ℕ) → (b : ℕ) × (last? (a ∷ rest) ≡ some b)
last?-cons a [] = (a, refl)
last?-cons a (b ∷ rest) = last?-cons b rest

-- where list_insert_before puts an entry: before the first entry of a list, after any other
abbrev pub placed : {A : Type 0} → List (ℕ × A) → ℕ × A → ℕ × A → List (ℕ × A) → List (ℕ × A)
placed [] old new ys = new ∷ old ∷ ys
placed (x ∷ xs) old new ys = (x ∷ xs) ++ (old ∷ new ∷ ys)

module _ {queue : TailQueue} {A : Type 0} where
  pub list_append-Holds :
      (list : LinkedList queue A) (x : A) (es : List (ℕ × A))
      → Holds list es
      → Holds (list_append list x).1 (es ++ ((list.fresh, x) ∷ []))
  unfolding list_append new_item
  list_append-Holds list x es h =
      put-Holds list (queue.insert_tail list.head list.fresh) x es [] (rw (append-nil es) h) (
        queue.order-insert_tail list.head list.fresh
          (rw h.order (NotIn-fresh list.item list.fresh es h.cells))
        ∙ rw h.order refl)

  pub list_unshift-Holds :
      (list : LinkedList queue A) (x : A) (es : List (ℕ × A))
      → Holds list es
      → Holds (list_unshift list x).1 ((list.fresh, x) ∷ es)
  unfolding list_unshift new_item
  list_unshift-Holds list x es h =
      put-Holds list (queue.insert_head list.head list.fresh) x [] es h (
        queue.order-insert_head list.head list.fresh
          (rw h.order (NotIn-fresh list.item list.fresh es h.cells))
        ∙ rw h.order refl)

  split-order :
      (list : LinkedList queue A) (xs : List (ℕ × A)) (a : ℕ) (x : A) (ys : List (ℕ × A))
      → Holds list (xs ++ ((a, x) ∷ ys))
      → (queue.order list.head ≡ addrs xs ++ (a ∷ addrs ys))
        × IsDistinct (addrs xs ++ (a ∷ addrs ys))
  split-order list xs a x ys h =
      (h.order ∙ addrs-append xs ((a, x) ∷ ys), rw (addrs-append xs ((a, x) ∷ ys)) at h.distinct)

  pub list_next-Holds :
      (list : LinkedList queue A) (xs : List (ℕ × A)) (a : ℕ) (x : A) (ys : List (ℕ × A))
      → Holds list (xs ++ ((a, x) ∷ ys))
      → list_next list a ≡ head? (addrs ys)
  unfolding list_next
  list_next-Holds list xs a x ys h =
      let (e, d) = split-order list xs a x ys h in
      queue.next-order list.head (addrs xs) a (addrs ys) e d

  list_prev-Holds :
      (list : LinkedList queue A) (xs : List (ℕ × A)) (a : ℕ) (x : A) (ys : List (ℕ × A))
      → Holds list (xs ++ ((a, x) ∷ ys))
      → list_prev list a ≡ last? (addrs xs)
  unfolding list_prev
  list_prev-Holds list xs a x ys h =
      let (e, d) = split-order list xs a x ys h in
      queue.prev-order list.head (addrs xs) a (addrs ys) e d

  pub list_first-Holds :
      (list : LinkedList queue A) (es : List (ℕ × A))
      → Holds list es
      → list_first list ≡ head? (addrs es)
  unfolding list_first
  list_first-Holds list es h = queue.first-order list.head ∙ ap head? h.order

  inserted-Holds :
      (list : LinkedList queue A) (xs : List (ℕ × A)) (a : ℕ) (y : A) (ys : List (ℕ × A)) (x : A)
      → Holds list (xs ++ ((a, y) ∷ ys))
      → Holds {queue = queue}
          (record {
            head = queue.insert_after list.head a list.fresh;
            item = store list.item list.fresh (some x);
            fresh = list.fresh + 1;
          })
          (xs ++ ((a, y) ∷ (list.fresh, x) ∷ ys))
  inserted-Holds list xs a y ys x h =
      let (e, d) = split-order list xs a y ys h in
      let unused = NotIn-fresh list.item list.fresh (xs ++ ((a, y) ∷ ys)) h.cells in
      let placed =
        queue.order-insert_after list.head (addrs xs) a (addrs ys) list.fresh e d
          (rw h.order unused) in
      let before = append_assoc xs ((a, y) ∷ []) ys in
      let after = append_assoc xs ((a, y) ∷ []) ((list.fresh, x) ∷ ys) in
      rw (sym after) (
        put-Holds list (queue.insert_after list.head a list.fresh) x (xs ++ ((a, y) ∷ [])) ys
          (rw before h)
          (placed
            ∙ sym (append_assoc (addrs xs) (a ∷ []) (list.fresh ∷ addrs ys))
            ∙ ap (λ p. p ++ (list.fresh ∷ addrs ys)) (sym (addrs-append xs ((a, y) ∷ [])))))

  pub removed-Holds :
      (list : LinkedList queue A) (xs : List (ℕ × A)) (a : ℕ) (x : A) (ys : List (ℕ × A))
      → Holds list (xs ++ ((a, x) ∷ ys))
      → Holds {queue = queue}
          (record list { head = queue.remove list.head a; item = store list.item a none })
          (xs ++ ys)
  removed-Holds list xs a x ys h =
      let (e, d) = split-order list xs a x ys h in
      let (distinct, gone) = IsDistinct-drop (addrs xs) a (addrs ys) d in
      let n = length-append xs ys in
      let n' = length-append xs ((a, x) ∷ ys) in
      let count = h.count in
      record {
        order = queue.order-remove list.head (addrs xs) a (addrs ys) e d ∙ sym (addrs-append xs ys);
        distinct = rw (addrs-append xs ys) distinct;
        cells =
            Cells-store list.item list.fresh list.fresh a none (xs ++ ys)
              (rw (addrs-append xs ys) gone) (omega arith)
              (Cells-drop list.item list.fresh xs a x ys h.cells);
        count = omega arith;
      }

  pub list_insert_after-Holds :
      (list : LinkedList queue A) (xs : List (ℕ × A)) (a : ℕ) (y : A) (ys : List (ℕ × A)) (x : A)
      → Holds list (xs ++ ((a, y) ∷ ys))
      → Returns
          (λ r. (r.0 ≡ list.fresh) × Holds r.1 (xs ++ ((a, y) ∷ (list.fresh, x) ∷ ys)))
          (list_insert_after list a x)
  unfolding list_insert_after new_item
  list_insert_after-Holds list xs a y ys x h =
      let live = Cells-value list.item list.fresh xs a y ys h.cells in
      rw (live, value) (returns (refl, inserted-Holds list xs a y ys x h))

  pub list_remove-Holds :
      (list : LinkedList queue A) (xs : List (ℕ × A)) (a : ℕ) (x : A) (ys : List (ℕ × A))
      → Holds list (xs ++ ((a, x) ∷ ys))
      → Returns (λ r. (r.0 ≡ x) × Holds r.1 (xs ++ ys)) (list_remove list a)
  unfolding list_remove
  list_remove-Holds list xs a x ys h =
      let live = Cells-value list.item list.fresh xs a x ys h.cells in
      rw (live, value) (returns (refl, removed-Holds list xs a x ys h))

  -- list_insert_before, at a live iterator of a list, puts the new item before it if it is the
  -- first of the list, and after it otherwise; the rest of the list stays.
  pub list_insert_before_lem :
      (list : LinkedList queue A) (xs : List (ℕ × A)) (a : ℕ) (y : A) (ys : List (ℕ × A)) (x : A)
      → Holds list (xs ++ ((a, y) ∷ ys))
      → Returns
          (λ r. (r.0 ≡ list.fresh) × Holds r.1 (placed xs (a, y) (list.fresh, x) ys))
          (list_insert_before list a x)
  unfolding list_insert_before insert_at list_unshift
  list_insert_before_lem list [] a y ys x h =
      let none_before = list_prev-Holds list [] a y ys h in
      let live = Cells-value list.item list.fresh [] a y ys h.cells in
      rw (none_before, insert_at, live, value)
        (returns (refl, list_unshift-Holds list x ((a, y) ∷ ys) h))
  list_insert_before_lem list ((b, z) ∷ xs) a y ys x h =
      let (p, last) = last?-cons b (addrs xs) in
      rw (list_prev-Holds list ((b, z) ∷ xs) a y ys h, last, insert_at)
        (list_insert_after-Holds list ((b, z) ∷ xs) a y ys x h)
