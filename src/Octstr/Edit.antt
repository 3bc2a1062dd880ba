-- ===== src/Octstr/Edit.antt =====
-- octstr.c: the calls that copy, cut and join strings, on their octets.
use native.Mathlib.Nat.{zero-add}
use bflib.Base.{
  ℕ, zero, suc, ◌+◌, ◌-◌, ◌^◌, ◌≤◌, ◌<◌, ◌≡◌, refl, sym, ap, ◌∙◌, List, [], ◌∷◌, ◌++◌, length, take,
  drop, arith, leb, Bool-cases, lt→ltb, inl, inr,
}
use bflib.Run.{Returns, Returns-bind, Returns-map, Returns-if, ◌>>=◌}
use bflib.Octstr.{
  Octstr, slice, read, octstr_create, octstr_replace, octstr_append, octstr_substr, octstr_delete,
}
use bflib.Octstr.Contents.{
  contents, IsValid, Holds, length-slice, length-contents, read-ok, read-contents,
  octstr_str_append-Holds, octstr_str_replace-Holds,
}

pub take-slice : (b : ℕ → ℕ) (p n m : ℕ) → n ≤ m → take n (slice b p m) ≡ slice b p n
take-slice b p zero m h = refl
take-slice b p (suc n) zero h = absurd (omega arith)
take-slice b p (suc n) (suc m) h = ap (◌∷◌ (b p)) (take-slice b (p + 1) n m (omega arith))

take-slice_all : (b : ℕ → ℕ) (p n m : ℕ) → m ≤ n → take n (slice b p m) ≡ slice b p m
take-slice_all b p zero zero h = refl
take-slice_all b p zero (suc m) h = absurd (omega arith)
take-slice_all b p (suc n) zero h = refl
take-slice_all b p (suc n) (suc m) h = ap (◌∷◌ (b p)) (take-slice_all b (p + 1) n m (omega arith))

pub drop-slice : (b : ℕ → ℕ) (p k m : ℕ) → k ≤ m → drop k (slice b p m) ≡ slice b (p + k) (m - k)
drop-slice b p zero m h =
    let place : p ≡ p + 0 = omega arith in
    let count : m ≡ m - 0 = omega arith in
    ap (λ (q : ℕ). slice b q m) place ∙ ap (λ (i : ℕ). slice b (p + 0) i) count
drop-slice b p (suc k) zero h = absurd (omega arith)
drop-slice b p (suc k) (suc m) h =
    let place : p + 1 + k ≡ p + suc k = omega arith in
    let count : m - k ≡ suc m - suc k = omega arith in
    drop-slice b (p + 1) k m (omega arith)
    ∙ ap (λ (q : ℕ). slice b q (m - k)) place
    ∙ ap (λ (i : ℕ). slice b (p + suc k) i) count

drop-slice_all : (b : ℕ → ℕ) (p k m : ℕ) → m ≤ k → drop k (slice b p m) ≡ []
drop-slice_all b p zero zero h = refl
drop-slice_all b p zero (suc m) h = absurd (omega arith)
drop-slice_all b p (suc k) zero h = refl
drop-slice_all b p (suc k) (suc m) h = drop-slice_all b (p + 1) k m (omega arith)

take_nil : (n : ℕ) → take {A = ℕ} n [] ≡ []
take_nil zero = refl
take_nil (suc n) = refl

pub take-length : (xs : List ℕ) → take (length xs) xs ≡ xs
take-length [] = refl
take-length (x ∷ xs) = ap (◌∷◌ x) (take-length xs)

length-drop : (k : ℕ) (xs : List ℕ) → length (drop k xs) ≡ length xs - k
length-drop zero xs = omega arith
length-drop (suc k) [] = omega arith
length-drop (suc k) (x ∷ xs) = omega (arith, length-drop k xs)

length-take-le : (k : ℕ) (xs : List ℕ) → length (take k xs) ≤ length xs
length-take-le zero xs = omega arith
length-take-le (suc k) [] = omega arith
length-take-le (suc k) (x ∷ xs) = omega (arith, length-take-le k xs)

pub octstr_create-Holds :
    (memory : ℕ → ℕ) (buf : List ℕ)
    → length buf < 2 ^ 30
    → Returns (Holds buf) (octstr_create memory buf)
unfolding octstr_create
octstr_create-Holds memory buf h = octstr_str_replace-Holds _ buf h

pub octstr_append-Holds :
    (dst src : Octstr)
    → IsValid dst
    → IsValid src
    → dst.len + src.len < 2 ^ 30
    → Returns (Holds (contents dst ++ contents src)) (octstr_append dst src)
unfolding octstr_append
octstr_append-Holds dst src v w h =
    rw (read-contents src w)
      (octstr_str_append-Holds dst (contents src) v (omega (arith, length-contents src)))

pub octstr_replace-Holds :
    (dst src : Octstr)
    → IsValid src
    → src.len < 2 ^ 30
    → Returns (Holds (contents src)) (octstr_replace dst src)
unfolding octstr_replace
octstr_replace-Holds dst src w h =
    rw (read-contents src w)
      (octstr_str_replace-Holds dst (contents src) (omega (arith, length-contents src)))

-- a range inside the string, and one that is cut at its end
pub range_inside :
    (s : Octstr) (pos n : ℕ)
    → pos + n ≤ s.len
    → slice s.bytes pos n ≡ take n (drop pos (contents s))
range_inside s pos n h = sym (
    ap (take n) (
      drop-slice s.bytes 0 pos s.len (omega arith)
      ∙ ap (λ q. slice s.bytes q (s.len - pos)) (zero-add pos))
    ∙ take-slice s.bytes pos n (s.len - pos) (omega arith))

range_cut :
    (s : Octstr) (pos n : ℕ)
    → pos ≤ s.len
    → s.len ≤ pos + n
    → slice s.bytes pos (s.len - pos) ≡ take n (drop pos (contents s))
range_cut s pos n p h = sym (
    ap (take n)
      (drop-slice s.bytes 0 pos s.len p ∙ ap (λ q. slice s.bytes q (s.len - pos)) (zero-add pos))
    ∙ take-slice_all s.bytes pos n (s.len - pos) (omega arith))

create_range :
    (memory : ℕ → ℕ) (s : Octstr) (pos n : ℕ) (xs : List ℕ)
    → IsValid s
    → s.len < 2 ^ 30
    → pos + n ≤ s.len
    → slice s.bytes pos n ≡ xs
    → Returns (Holds xs) (read s pos n >>= λ buf. octstr_create memory buf)
create_range memory s pos n xs v h inside same =
    rw (read-ok s pos n (omega arith), sym same)
      (octstr_create-Holds memory (slice s.bytes pos n) (omega (arith, length-slice s.bytes pos n)))

-- octstr_substr gives the octets of a range, cut at the end of the string
pub octstr_substr-Holds :
    (memory : ℕ → ℕ) (s : Octstr) (pos n : ℕ)
    → IsValid s
    → s.len < 2 ^ 30
    → pos + n < 2 ^ 31
    → Returns (Holds (take n (drop pos (contents s)))) (octstr_substr memory s pos n)
unfolding octstr_substr
octstr_substr-Holds memory s pos n v h fits =
    Returns-if (leb s.len pos)
      (λ e.
        rw (drop-slice_all s.bytes 0 pos s.len (ground arith), take_nil n)
          (octstr_create-Holds memory [] (omega arith)))
      (λ e. rw (lt→ltb (pos + n) (2 ^ 31) fits) elim (Bool-cases (leb (pos + n) s.len)) [
        | inl e' ↦
            rw e' (
              create_range memory s pos n _ v h (ground arith)
                (range_inside s pos n (ground arith)))
        | inr e' ↦ rw e' (
            create_range memory s pos (s.len - pos) _ v h (ground arith)
              (range_cut s pos n (ground arith) (ground arith)))
      ])

-- octstr_delete on a valid string shorter than 2 ^ 29, with a range that ends below 2 ^ 31,
-- returns a valid string of the octets before the range and those behind it; a range past the end
-- is cut there.
pub octstr_delete_lem :
    (memory : ℕ → ℕ) (s : Octstr) (pos n : ℕ)
    → IsValid s
    → s.len < 2 ^ 29
    → pos + n < 2 ^ 31
    → Returns
        (Holds (take pos (contents s) ++ drop (pos + n) (contents s)))
        (octstr_delete memory s pos n)
unfolding octstr_delete
octstr_delete_lem memory s pos n v h fits =
    let whole = length-contents s in
    let front = take pos (contents s) in
    let back = drop (pos + n) (contents s) in
    let count : s.len - (pos + n) ≡ length back =
      omega (arith, length-drop (pos + n) (contents s)) in
    let tail = ap (λ (k : ℕ). take k back) count ∙ take-length back in
    Returns-bind (octstr_substr-Holds memory s 0 pos v (omega arith) (omega arith))
      (λ substr1 (v1, first). rw (lt→ltb (pos + n) (2 ^ 31) fits) (
        Returns-bind
          (octstr_substr-Holds memory s (pos + n) (s.len - (pos + n)) v (omega arith) (omega arith))
          (λ substr2 (v2, second).
            let n1 : substr1.len ≤ s.len =
              omega (
                arith,
                length-contents substr1,
                ap length first,
                length-take-le pos (contents s),
              ) in
            let n2 : substr2.len ≤ s.len =
              omega (arith, length-contents substr2, ap length (second ∙ tail)) in
            Returns-bind (octstr_replace-Holds s substr1 v1 (omega arith)) (λ t (v', same).
              let n3 : t.len ≡ substr1.len =
                omega (arith, length-contents t, length-contents substr1, ap length same) in
              Returns-map (octstr_append-Holds t substr2 v' v2 (omega arith)) (λ r (v'', all). (
                v'',
                all
                    ∙ ap (λ xs. xs ++ contents substr2) (same ∙ first)
                    ∙ ap (λ xs. front ++ xs) (second ∙ tail),
              ))))))
