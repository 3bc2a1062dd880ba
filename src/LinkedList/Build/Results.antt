-- ===== src/LinkedList/Build/Results.antt =====
-- What list_copy, list_append_list, list_map, list_filter and list_erase (list.c) leave in the lists.
use mathlib.Core.List.{append-nil, append_assoc}
use bflib.Base.{
  Bool-cases, inl, inr, ℕ, zero, suc, ◌<◌, ◌≡◌, refl, sym, ap, ◌∙◌, Bool, Option, some, List, [],
  ◌∷◌, ◌++◌, map, arith, length, if◌then◌else◌,
}
use bflib.Run.{ok, Returns, returns, Returns-bind, Returns-map}
use bflib.TailQueue.{TailQueue}
use bflib.LinkedList.{
  LinkedList, value, loop, list_create, list_append, erase_loop, list_erase, list_destroy,
  list_iterator_get_value, list_iter_value,
}
use bflib.LinkedList.Contents.{values, values-append, Cells-value, Holds, list_create-Holds}
use bflib.LinkedList.Change.{list_append-Holds, list_first-Holds, removed-Holds}
use bflib.LinkedList.Walks.{Contains, loop-Returns}
use bflib.LinkedList.Build.{
  made, append_body, filter_body, list_copy, list_append_list, list_map, list_filter,
}

module _ {queue : TailQueue} {A : Type 0} where
  pub list_append-Contains :
      (list : LinkedList queue A) (x : A) (xs : List A)
      → Contains list xs
      → Contains (list_append list x).1 (xs ++ (x ∷ []))
  list_append-Contains list x xs (es, h, e) = (
    es ++ ((list.fresh, x) ∷ []),
    list_append-Holds list x es h,
    values-append es ((list.fresh, x) ∷ []) ∙ ap (λ ys. ys ++ (x ∷ [])) e,
  )

  pub list_create-Contains : Contains (list_create {queue = queue} {A = A}) []
  list_create-Contains = ([], list_create-Holds, refl)

-- the list holds what the items that are left still add to it
abbrev Building : {queue : TailQueue} {B : Type 0} → List B → List B → LinkedList queue B → Type 0
Building {B = B} whole left target = (ys : List B) × Contains target ys × (ys ++ left ≡ whole)

module _ {queue : TailQueue} {A B : Type 0} where
  append_body-Building :
      (fun : A → B) (list : LinkedList queue A) (whole : List B) (a : ℕ) (x : A) (rest : List A)
      (target : LinkedList queue B)
      → list.item a ≡ some x
      → Building whole (map fun (x ∷ rest)) target
      → Returns (Building whole (map fun rest)) (append_body fun list a target)
  unfolding append_body list_iterator_get_value
  append_body-Building fun list whole a x rest target live (ys, holds, e) =
      rw (live, value)
        (returns (
          ys ++ (fun x ∷ []),
          list_append-Contains target (fun x) ys holds,
          append_assoc ys (fun x ∷ []) (map fun rest) ∙ e,
        ))

  copy_loop-Contains :
      (fun : A → B) (list : LinkedList queue A) (xs : List A) (target : LinkedList queue B)
      (ys : List B)
      → Contains list xs
      → Contains target ys
      → Returns (λ r. Contains r (ys ++ map fun xs)) (loop list (append_body fun list) target)
  copy_loop-Contains fun list xs target ys (es, h, e) holds =
      Returns-map
        (loop-Returns (λ rest t. Building (ys ++ map fun xs) (map fun rest) t) list
          (append_body fun list) (append_body-Building fun list (ys ++ map fun xs)) es target h
          (ys, holds, rw e refl))
        (λ r (zs, holds', e'). rw (sym e', append-nil) holds')

abbrev pub select : {A : Type 0} → (A → Bool) → List A → List A
select match [] = []
select match (x ∷ xs) = if match x then x ∷ select match xs else select match xs

module _ {queue : TailQueue} {A : Type 0} where
  filter_body-Building :
      (match : A → Bool) (list : LinkedList queue A) (whole : List A) (a : ℕ) (x : A)
      (rest : List A) (target : LinkedList queue A)
      → list.item a ≡ some x
      → Building whole (select match (x ∷ rest)) target
      → Returns (Building whole (select match rest)) (filter_body list match a target)
  unfolding filter_body list_iterator_get_value
  filter_body-Building match list whole a x rest target live (ys, holds, e) =
      rw (live, value)
        (elim (Bool-cases (match x)) [
          | inl m ↦ rw m (
              returns (
                ys ++ (x ∷ []),
                list_append-Contains target x ys holds,
                append_assoc ys (x ∷ []) (select match rest) ∙ (rw m at e),
              ))
          | inr m ↦ rw m (returns (ys, holds, rw m at e))
        ])

  filter_loop-Contains :
      (match : A → Bool) (list : LinkedList queue A) (xs : List A)
      → Contains list xs
      → Returns (λ r. Contains r (select match xs)) (loop list (filter_body list match) list_create)
  filter_loop-Contains match list xs (es, h, e) =
      Returns-map
        (loop-Returns (λ rest t. Building (select match xs) (select match rest) t) list
          (filter_body list match) (filter_body-Building match list (select match xs)) es
          list_create h ([], list_create-Contains, rw e refl))
        (λ r (zs, holds', e'). rw (sym e', append-nil) holds')

  -- On a list that contains `xs`: list_copy gives a list of the items, or of what the constructor
  -- makes of each; list_append_list adds the same to the end of another list; list_map gives the
  -- list of the function's values, and list_filter that of the items that match, in their order.
  pub list_build_lem :
      (list other : LinkedList queue A) (xs ys : List A) (constructor : Option (A → A))
      (fun : A → A) (match : A → Bool)
      → Contains list xs
      → Contains other ys
      → Returns (λ r. Contains r (map (made constructor) xs)) (list_copy list constructor)
        × Returns
            (λ r. Contains r (ys ++ map (made constructor) xs))
            (list_append_list other list constructor)
        × Returns (λ r. Contains r (map fun xs)) (list_map list fun)
        × Returns (λ r. Contains r (select match xs)) (list_filter list match)
  unfolding list_copy list_append_list list_map list_filter
  list_build_lem list other xs ys constructor fun match holds holds' = (
    copy_loop-Contains (made constructor) list xs list_create [] holds list_create-Contains,
    copy_loop-Contains (made constructor) list xs other ys holds holds',
    copy_loop-Contains fun list xs list_create [] holds list_create-Contains,
    filter_loop-Contains match list xs holds,
  )

  erase_loop-Contains :
      (destructor : Bool) (fuel : ℕ) (list : LinkedList queue A) (es : List (ℕ × A))
      → Holds list es
      → length es < fuel
      → Returns
          (λ r. (r.0 ≡ (if destructor then values es else [])) × Contains r.1 [])
          (erase_loop fuel list destructor)
  unfolding erase_loop
  erase_loop-Contains destructor zero list es h l = absurd (omega arith)
  erase_loop-Contains destructor (suc fuel) list [] h l =
      rw (list_first-Holds list [] h, erase_loop) (returns (ground arith, ([], h, refl)))
  erase_loop-Contains destructor (suc fuel) list ((a, x) ∷ es) h l =
      rw
        (
          list_first-Holds list ((a, x) ∷ es) h,
          erase_loop,
          Cells-value list.item list.fresh [] a x es h.cells,
          value,
        )
        (Returns-bind
          (erase_loop-Contains destructor fuel _ es (removed-Holds list [] a x es h) (omega arith))
          (λ r (same, holds). returns (ground arith, holds)))

  pub list_erase-Contains :
      (destructor : Bool) (list : LinkedList queue A) (xs : List A)
      → Contains list xs
      → Returns
          (λ r. (r.0 ≡ (if destructor then xs else [])) × Contains r.1 [])
          (list_erase list destructor)
  unfolding list_erase
  list_erase-Contains destructor list xs (es, h, e) =
      let count = h.count in
      rw (sym e) (erase_loop-Contains destructor (suc list.fresh) list es h (omega arith))

  pub list_destroy-Contains :
      (destructor : Bool) (list : LinkedList queue A) (xs : List A)
      → Contains list xs
      → Returns (λ items. items ≡ (if destructor then xs else [])) (list_destroy list destructor)
  unfolding list_destroy
  list_destroy-Contains destructor list xs contents =
      Returns-bind (list_erase-Contains destructor list xs contents)
        (λ (items, rest) (same, _). returns same)

  -- the value of a live iterator
  pub list_iterator_get_value-live :
      (list : LinkedList queue A) (a : ℕ) (x : A)
      → list.item a ≡ some x
      → list_iterator_get_value list a ≡ ok x
  unfolding list_iterator_get_value
  list_iterator_get_value-live list a x live = rw (live, value) refl

  pub list_iter_value-live :
      (list : LinkedList queue A) (a : ℕ) (x : A)
      → list.item a ≡ some x
      → list_iter_value list a ≡ ok x
  unfolding list_iter_value
  list_iter_value-live list a x live = rw (live, value) refl
