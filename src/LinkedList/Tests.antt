-- ===== src/LinkedList/Tests.antt =====
-- Runs of list.c over a queue that is a sequence.
use Prim.Native.Nat.{compare}
use mathlib.Core.List.{Perm}
use mathlib.Core.List.Perm
use bflib.Base.{
  suc, ◌≤◌, if◌then◌else◌, Bool-cases, inl, inr, ℕ, ◌+◌, ◌≡◌, refl, Bool, none, some, List, [], ◌∷◌,
  ◌++◌, map, arith, ◌==◌, ltb, length,
}
use bflib.Run.{Returns}
use bflib.TailQueue.Sequence.{sequence}
use bflib.LinkedList.{LinkedList, store, list_find, list_remove_first_match, list_insert_before}
use bflib.LinkedList.Contents.{Holds}
use bflib.LinkedList.Change.{placed, list_insert_before_lem}
use bflib.LinkedList.Walks.{Contains, first_match, without_match, list_remove_first_match_lem}
use bflib.LinkedList.Build.{list_copy, list_append_list, list_map, list_filter, list_sort, made}
use bflib.LinkedList.Build.Results.{select, list_build_lem}
use bflib.LinkedList.Build.Sort.{IsQsort, NotGreater, IsAscending, list_sort_lem}

-- the items 7 and 5, at the addresses 0 and 1
abbrev sample : LinkedList sequence ℕ
sample = record {
  head = 0 ∷ 1 ∷ [];
  item = store (store (λ a. none) 0 (some 7)) 1 (some 5);
  fresh = 2;
}

sample-Holds : Holds sample ((0, 7) ∷ (1, 5) ∷ [])
sample-Holds = record {
  order = refl;
  distinct = omega arith;
  cells = (refl, omega arith, (refl, omega arith, tt));
  count = omega arith;
}

sample-Contains : Contains sample (7 ∷ 5 ∷ [])
sample-Contains = ((0, 7) ∷ (1, 5) ∷ [], sample-Holds, refl)

list_insert_before_lem_example :
    Returns
      (λ r. (r.0 ≡ 2) × Holds r.1 (placed ((0, 7) ∷ []) (1, 5) (2, 9) []))
      (list_insert_before sample 1 9)
list_insert_before_lem_example = list_insert_before_lem sample ((0, 7) ∷ []) 1 5 [] 9 sample-Holds

is_five : ℕ → Bool
is_five x = x == 5

list_remove_first_match_lem_example :
    Returns (λ r. r ≡ first_match is_five (7 ∷ 5 ∷ [])) (list_find sample is_five)
    × Returns
        (λ r.
          (r.0 ≡ first_match is_five (7 ∷ 5 ∷ []))
          × Contains r.1 (without_match is_five (7 ∷ 5 ∷ [])))
        (list_remove_first_match sample is_five)
list_remove_first_match_lem_example =
    list_remove_first_match_lem sample is_five (7 ∷ 5 ∷ []) sample-Contains

list_build_lem_example :
    Returns (λ r. Contains r (map (made none) (7 ∷ 5 ∷ []))) (list_copy sample none)
    × Returns
        (λ r. Contains r ((7 ∷ 5 ∷ []) ++ map (made none) (7 ∷ 5 ∷ [])))
        (list_append_list sample sample none)
    × Returns (λ r. Contains r (map (λ x. x + 1) (7 ∷ 5 ∷ []))) (list_map sample (λ x. x + 1))
    × Returns (λ r. Contains r (select is_five (7 ∷ 5 ∷ []))) (list_filter sample is_five)
list_build_lem_example =
    list_build_lem sample sample (7 ∷ 5 ∷ []) (7 ∷ 5 ∷ []) none (λ x. x + 1) is_five sample-Contains
      sample-Contains

-- a qsort for numbers: insertion sort
insert_number : ℕ → List ℕ → List ℕ
insert_number x [] = x ∷ []
insert_number x (y ∷ ys) = if ltb y x then y ∷ insert_number x ys else x ∷ y ∷ ys

sort_numbers : List ℕ → List ℕ
sort_numbers [] = []
sort_numbers (x ∷ xs) = insert_number x (sort_numbers xs)

length-insert_number : (x : ℕ) (ys : List ℕ) → length (insert_number x ys) ≡ suc (length ys)
unfolding insert_number
length-insert_number x [] = refl
length-insert_number x (y ∷ ys) = ground (arith, length-insert_number x ys)

length-sort_numbers : (xs : List ℕ) → length (sort_numbers xs) ≡ length xs
unfolding sort_numbers
length-sort_numbers [] = refl
length-sort_numbers (x ∷ xs) =
    omega (arith, length-insert_number x (sort_numbers xs), length-sort_numbers xs)

insert_number-perm : (x : ℕ) (ys : List ℕ) → Perm (insert_number x ys) (x ∷ ys)
unfolding insert_number
insert_number-perm x [] = Perm.refl (x ∷ [])
insert_number-perm x (y ∷ ys) = elim (Bool-cases (ltb y x)) [
  | inl e ↦ rw e (Perm.trans (Perm.cons y (insert_number-perm x ys)) (Perm.swap x y ys))
  | inr e ↦ rw e (Perm.refl (x ∷ y ∷ ys))
]

sort_numbers-perm : (xs : List ℕ) → Perm (sort_numbers xs) xs
unfolding sort_numbers
sort_numbers-perm [] = Perm.refl []
sort_numbers-perm (x ∷ xs) =
    Perm.trans (insert_number-perm x (sort_numbers xs)) (Perm.cons x (sort_numbers-perm xs))

NotGreater-insert :
    (z x : ℕ) (ys : List ℕ)
    → z ≤ x
    → NotGreater compare z ys
    → NotGreater compare z (insert_number x ys)
unfolding insert_number
NotGreater-insert z x [] le h = (ground arith, tt)
NotGreater-insert z x (y ∷ ys) le (h, t) = elim (Bool-cases (ltb y x)) [
  | inl e ↦ rw (e, NotGreater) (h, NotGreater-insert z x ys le t)
  | inr e ↦ rw (e, NotGreater) (ground arith, (h, t))
]

NotGreater-trans :
    (x y : ℕ) (ys : List ℕ) → x ≤ y → NotGreater compare y ys → NotGreater compare x ys
NotGreater-trans x y [] le h = tt
NotGreater-trans x y (z ∷ ys) le (h, t) = (ground arith, NotGreater-trans x y ys le t)

insert_number-IsAscending :
    (x : ℕ) (ys : List ℕ) → IsAscending compare ys → IsAscending compare (insert_number x ys)
unfolding insert_number
insert_number-IsAscending x [] h = (tt, tt)
insert_number-IsAscending x (y ∷ ys) (h, t) = elim (Bool-cases (ltb y x)) [
  | inl e ↦
      rw (e, IsAscending)
        (NotGreater-insert y x ys (ground arith) h, insert_number-IsAscending x ys t)
  | inr e ↦
      let le : x ≤ y = ground arith in
      rw (e, IsAscending) ((ground arith, NotGreater-trans x y ys le h), (h, t))
]

sort_numbers-IsAscending : (xs : List ℕ) → IsAscending compare (sort_numbers xs)
unfolding sort_numbers
sort_numbers-IsAscending [] = tt
sort_numbers-IsAscending (x ∷ xs) =
    insert_number-IsAscending x (sort_numbers xs) (sort_numbers-IsAscending xs)

sort_numbers-IsQsort : IsQsort compare sort_numbers
sort_numbers-IsQsort = record {
  length-qsort = length-sort_numbers;
  qsort-perm = sort_numbers-perm;
  qsort-IsAscending = sort_numbers-IsAscending;
}

list_sort_lem_example :
    Returns
      (λ r. (ys : List ℕ) × Contains r ys × Perm ys (7 ∷ 5 ∷ []) × IsAscending compare ys)
      (list_sort sort_numbers sample)
list_sort_lem_example =
    list_sort_lem compare sort_numbers sort_numbers-IsQsort sample (7 ∷ 5 ∷ []) sample-Contains
