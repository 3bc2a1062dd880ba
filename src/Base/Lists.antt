-- ===== src/Base/Lists.antt =====
-- Lists measured and indexed by native numbers, under the library's names.
use Prim.Native.Nat.{ℕ, zero, suc, ◌+◌}
use mathlib.Core.Path.{◌≡◌, refl, ap}
use mathlib.Core.List.{
  List, [], ◌∷◌, ◌++◌, Mem, Perm, mem-cons, not-mem-nil, mem-cons_of_mem, mem-cons_self,
}
use mathlib.Core.List.Perm
use mathlib.Core.Logic.Or
use mathlib.Core.Bool.{Bool, true, Bool-set}
use mathlib.Core.Option.{Option, none, some}
use native.Mathlib.Omega.{arith}

module _ {ℓ} {A : Type ℓ} where
  abbrev pub length : List A → ℕ
  length [] = 0
  length (x ∷ xs) = suc (length xs)

  abbrev pub get_elem? : List A → ℕ → Option A
  get_elem? [] i = none
  get_elem? (x ∷ xs) zero = some x
  get_elem? (x ∷ xs) (suc i) = get_elem? xs i

  abbrev pub take : ℕ → List A → List A
  take zero xs = []
  take (suc n) [] = []
  take (suc n) (x ∷ xs) = x ∷ take n xs

  abbrev pub drop : ℕ → List A → List A
  drop zero xs = xs
  drop (suc n) [] = []
  drop (suc n) (x ∷ xs) = drop n xs

  -- A predicate that holds of every entry.
  abbrev pub All {κ} : (A → Type κ) → List A → Type κ
  All P [] = Unit {κ}
  All P (x ∷ xs) = P x × All P xs

  pub length-append : (xs ys : List A) → length (xs ++ ys) ≡ length xs + length ys
  length-append [] ys = omega arith
  length-append (x ∷ xs) ys = omega (arith, length-append xs ys)

  pub take-append : (xs ys : List A) → take (length xs) (xs ++ ys) ≡ xs
  take-append [] ys = refl
  take-append (x ∷ xs) ys = ap (◌∷◌ x) (take-append xs ys)

-- what a test says of all items does not depend on their order
module _ {A : Type 0} (test : A → Bool) where
  All-mem : (xs : List A) (x : A) → All (λ y. test y ≡ true) xs → Mem x xs → test x ≡ true
  All-mem [] x all m = absurd (not-mem-nil m)
  All-mem (y ∷ ys) x (here, all) m =
      Or.elim (Bool-set _ _) (mem-cons.0 m) (λ e. rw e here) (All-mem ys x all)

  mem-All : (xs : List A) → ((x : A) → Mem x xs → test x ≡ true) → All (λ y. test y ≡ true) xs
  mem-All [] each = tt
  mem-All (y ∷ ys) each = (each y mem-cons_self, mem-All ys (λ x m. each x (mem-cons_of_mem y m)))

  pub All-perm :
      (xs ys : List A) → Perm xs ys → All (λ y. test y ≡ true) xs → All (λ y. test y ≡ true) ys
  All-perm xs ys p all = mem-All ys (λ x m. All-mem xs x all ((Perm.mem_iff p).1 m))
