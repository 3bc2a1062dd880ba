-- ===== src/Octstr/Compare.antt =====
-- octstr.c: the comparison of strings. memcmp is a parameter; its result and that of octstr_cmp
-- stand for their signs.
use Prim.Native.Nat.{Ordering, compare}
use bflib.Base.{
  Ordering-cases, ◌⊎◌, inl, inr, ℕ, zero, suc, ◌≤◌, ◌≡◌, refl, sym, ap, ◌∙◌, List, [], ◌∷◌, length,
  take, arith, ltb, if◌then◌else◌,
}
use bflib.Run.{Run, ok, ◌>>=◌}
use mathlib.Core.Path.{ap₂}
use bflib.Octstr.{Octstr, slice, read, octstr_create_from_str}
use bflib.Octstr.Contents.{contents, IsValid, length-contents, length-slice, read-ok}
use bflib.Octstr.Edit.{take-slice}

pub min : ℕ → ℕ → ℕ
min a b = if ltb a b then a else b

by_length : ℕ → ℕ → Ordering → Ordering
by_length len1 len2 Ordering.lt = Ordering.lt
by_length len1 len2 Ordering.gt = Ordering.gt
by_length len1 len2 Ordering.eq =
    if ltb len1 len2 then Ordering.lt else if ltb len2 len1 then Ordering.gt else Ordering.eq

-- lists of numbers in the order of a dictionary
pub lexical : List ℕ → List ℕ → Ordering
lexical [] [] = Ordering.eq
lexical [] (b ∷ bs) = Ordering.lt
lexical (a ∷ as_) [] = Ordering.gt
lexical (a ∷ as_) (b ∷ bs) =
    let rest = lexical as_ bs in
    elim (compare a b) [
      | Ordering.lt ↦ Ordering.lt
      | Ordering.gt ↦ Ordering.gt
      | Ordering.eq ↦ rest
    ]

module _ (memcmp : List ℕ → List ℕ → Ordering) where
  pub octstr_cmp : Octstr → Octstr → Run Ordering
  unfolding min by_length
  octstr_cmp s1 s2 = do
    let n = min s1.len s2.len
    buf1 ← read s1 0 n
    buf2 ← read s2 0 n
    ok (by_length s1.len s2.len (memcmp buf1 buf2))

  pub octstr_str_cmp : (memory : ℕ → ℕ) → Octstr → List ℕ → Run Ordering
  octstr_str_cmp memory s1 s2 = do tmp ← octstr_create_from_str memory s2; octstr_cmp s1 tmp

by_length-suc : (a b : ℕ) (o : Ordering) → by_length (suc a) (suc b) o ≡ by_length a b o
unfolding by_length
by_length-suc a b Ordering.lt = refl
by_length-suc a b Ordering.gt = refl
by_length-suc a b Ordering.eq = ground arith

-- the first octets that differ decide, or the lengths where one string is the start of the other
cut_short :
    (n : ℕ) (xs ys : List ℕ)
    → n ≤ length xs
    → n ≤ length ys
    → length xs ≤ n ⊎ length ys ≤ n
    → by_length (length xs) (length ys) (lexical (take n xs) (take n ys)) ≡ lexical xs ys
unfolding by_length lexical
cut_short zero [] [] h k e = ground arith
cut_short zero [] (y ∷ ys) h k e = ground arith
cut_short zero (x ∷ xs) [] h k e = ground arith
cut_short zero (x ∷ xs) (y ∷ ys) h k e = absurd (omega arith)
cut_short (suc n) [] ys h k e = absurd (omega arith)
cut_short (suc n) (x ∷ xs) [] h k e = absurd (omega arith)
cut_short (suc n) (x ∷ xs) (y ∷ ys) h k e =
    let ih =
      by_length-suc (length xs) (length ys) (lexical (take n xs) (take n ys))
      ∙ cut_short n xs ys (omega arith) (omega arith) (omega arith) in
    elim (Ordering-cases (compare x y)) [
      | inl e' ↦ rw (e', by_length, lexical) refl
      | inr (inl e') ↦ rw (e', by_length, lexical) ih
      | inr (inr e') ↦ rw (e', by_length, lexical) refl
    ]

min-bounds : (a b : ℕ) → (min a b ≤ a) × (min a b ≤ b) × (a ≤ min a b ⊎ b ≤ min a b)
unfolding min
min-bounds a b = ground arith

-- octstr_cmp on valid strings, with a memcmp that orders blocks of the same length as a
-- dictionary does, orders the octets of the strings as a dictionary does, the start of a string
-- before it.
pub octstr_cmp-lexical :
    (memcmp : List ℕ → List ℕ → Ordering) (s1 s2 : Octstr)
    → IsValid s1
    → IsValid s2
    → ((xs ys : List ℕ) → length xs ≡ length ys → memcmp xs ys ≡ lexical xs ys)
    → octstr_cmp memcmp s1 s2 ≡ ok (lexical (contents s1) (contents s2))
unfolding octstr_cmp
octstr_cmp-lexical memcmp s1 s2 v w known =
    let n = min s1.len s2.len in
    let (low1, low2, end) = min-bounds s1.len s2.len in
    let a = length-contents s1 in
    let b = length-contents s2 in
    let buf1 = slice s1.bytes 0 n in
    let buf2 = slice s2.bytes 0 n in
    let first = take-slice s1.bytes 0 n s1.len low1 in
    let second = take-slice s2.bytes 0 n s2.len low2 in
    rw
      (
        read-ok s1 0 n (omega arith),
        read-ok s2 0 n (omega arith),
        known buf1 buf2 (length-slice s1.bytes 0 n ∙ sym (length-slice s2.bytes 0 n)),
      )
      (ap ok (
        sym (ap₂ (λ xs ys. by_length s1.len s2.len (lexical xs ys)) first second)
        ∙ sym (
            ap₂ (λ (k l : ℕ). by_length k l (lexical (take n (contents s1)) (take n (contents s2))))
              a b)
        ∙ cut_short n (contents s1) (contents s2) (omega arith) (omega arith) (omega arith)))
