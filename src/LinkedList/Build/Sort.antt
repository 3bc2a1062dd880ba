-- ===== src/LinkedList/Build/Sort.antt =====
-- list_size and list_sort (list.c).
use Prim.Native.Nat.{Ordering}
use mathlib.Core.List.Perm
use mathlib.Core.List.{append-nil, append_assoc, Perm}
use bflib.Base.{
  ◌≢◌, lt→ltb, ℕ, ◌+◌, ◌<◌, ◌≡◌, refl, sym, ap, ◌∙◌, false, some, List, [], ◌∷◌, ◌++◌, arith,
  length, length-append, get_elem?, ◌==◌,
}
use bflib.Run.{Returns, returns, Returns-bind, Returns-map, Returns-if, ◌>>=◌}
use bflib.TailQueue.{TailQueue}
use bflib.LinkedList.{LinkedList, value, loop, list_append, list_size, list_iterator_get_value}
use bflib.LinkedList.Walks.{Contains, loop-Returns}
use bflib.LinkedList.Build.{write, append_loop, sort_items, list_sort}
use bflib.LinkedList.Build.Results.{list_append-Contains, list_erase-Contains}

get_elem?-middle :
    {A : Type 0} (xs ys : List A) (x : A) → get_elem? (xs ++ (x ∷ ys)) (length xs) ≡ some x
get_elem?-middle [] ys x = refl
get_elem?-middle (y ∷ xs) ys x = get_elem?-middle xs ys x

abbrev pub NotGreater : {A : Type 0} → (A → A → Ordering) → A → List A → Type 0
NotGreater cmp x [] = Unit
NotGreater cmp x (y ∷ ys) = (cmp x y ≢ Ordering.gt) × NotGreater cmp x ys

-- no item is greater than a later one
abbrev pub IsAscending : {A : Type 0} → (A → A → Ordering) → List A → Type 0
IsAscending cmp [] = Unit
IsAscending cmp (x ∷ xs) = NotGreater cmp x xs × IsAscending cmp xs

-- what the C library says of qsort, for the comparison functions that it accepts
pub record IsQsort {A : Type 0} (cmp : A → A → Ordering) (qsort : List A → List A) : Type 0 where
  pub length-qsort : (xs : List A) → length (qsort xs) ≡ length xs
  pub qsort-perm : (xs : List A) → Perm (qsort xs) xs
  pub qsort-IsAscending : (xs : List A) → IsAscending cmp (qsort xs)

empty-IsAscending :
    {A : Type 0} (cmp : A → A → Ordering) (xs : List A) → length xs ≡ 0 → IsAscending cmp xs
empty-IsAscending cmp [] e = tt
empty-IsAscending cmp (x ∷ xs) e = absurd (omega arith)

module _ {queue : TailQueue} {A : Type 0} where
  pub list_size-Contains :
      (list : LinkedList queue A) (xs : List A)
      → Contains list xs
      → Returns (λ n. n ≡ length xs) (list_size list)
  unfolding list_size
  list_size-Contains list xs (es, h, e) =
      Returns-map
        (loop-Returns (λ rest i. i + length rest ≡ length xs) list _
          (λ a x rest i live counted. returns (omega arith)) es 0 h (omega (arith, ap length e)))
        (λ n counted. omega arith)

  collect-Contains :
      (list : LinkedList queue A) (xs : List A)
      → Contains list xs
      → Returns
          (λ arr. arr ≡ xs)
          (loop list
            (λ li arr. list_iterator_get_value list li >>= λ x. write (length xs) arr x)
            [])
  unfolding list_iterator_get_value
  collect-Contains list xs (es, h, e) =
      Returns-map
        (loop-Returns (λ rest arr. arr ++ rest ≡ xs) list _
          (λ a x rest arr live same.
            let room : length arr < length xs =
              omega (arith, ap length same, length-append arr (x ∷ rest)) in
            rw (live, value, lt→ltb (length arr) (length xs) room)
              (returns (append_assoc arr (x ∷ []) rest ∙ same)))
          es [] h e)
        (λ arr same. sym (append-nil arr) ∙ same)

  append_loop-Contains :
      (xs ys : List A) (i : ℕ) (list : LinkedList queue A) (zs : List A)
      → i ≡ length xs
      → Contains list zs
      → Returns (λ r. Contains r (zs ++ ys)) (append_loop (length ys) (xs ++ ys) i list)
  unfolding append_loop
  append_loop-Contains xs [] i list zs at holds = returns (rw (append-nil zs) holds)
  append_loop-Contains xs (y ∷ ys) i list zs at holds =
      let next =
        append_loop-Contains (xs ++ (y ∷ [])) ys (i + 1) (list_append list y).1 (zs ++ (y ∷ []))
          (omega (arith, at, length-append xs (y ∷ []))) (list_append-Contains list y zs holds) in
      rw (ap (get_elem? (xs ++ (y ∷ ys))) at ∙ get_elem?-middle xs ys y, value)
        (rw (append_assoc xs (y ∷ []) ys, append_assoc zs (y ∷ []) ys) at next)

  -- list_sort, with a qsort that sorts an array in place, leaves in the list the same items, each
  -- as often, in an order in which none is greater than a later one.
  pub list_sort_lem :
      (cmp : A → A → Ordering) (qsort : List A → List A)
      → IsQsort cmp qsort
      → (list : LinkedList queue A) (xs : List A) → Contains list xs
      → Returns
          (λ r. (ys : List A) × Contains r ys × Perm ys xs × IsAscending cmp ys)
          (list_sort qsort list)
  unfolding list_sort sort_items
  list_sort_lem cmp qsort sorts list xs holds =
      Returns-bind (list_size-Contains list xs holds) (λ n counted.
        Returns-if (n == 0)
          (λ empty. returns (xs, holds, Perm.refl xs, empty-IsAscending cmp xs (ground arith)))
          (λ some_items. rw counted (
            Returns-bind (collect-Contains list xs holds) (λ arr same. rw same (
              Returns-bind (list_erase-Contains false list xs holds) (λ r (_, erased).
                Returns-map
                  (rw (sorts.length-qsort xs) at
                    (append_loop-Contains [] (qsort xs) 0 r.1 [] refl erased))
                  (λ r' holds'.
                    (qsort xs, holds', sorts.qsort-perm xs, sorts.qsort-IsAscending xs))))))))
