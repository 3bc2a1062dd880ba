-- ===== src/Octstr/Contents.antt =====
-- The octets of a string of octstr.c, and what the calls that write them do.
use bflib.Base.{
  Bool-cases, inl, inr, lt→ltb, ℕ, zero, suc, ◌+◌, ◌^◌, ◌≤◌, ◌<◌, ◌≡◌, refl, sym, ap, ◌∙◌, List, [],
  ◌∷◌, ◌++◌, length, arith, ltb, ◌==◌, if◌then◌else◌,
}
use native.Mathlib.Nat.{add-zero, zero-add}
use mathlib.Core.List.{append-nil}
use bflib.Run.{ok, Returns, returns, Returns-bind, Returns-if}
use bflib.Octstr.{
  Octstr, slice, read, poke, spliced, copy_in, octstr_calc_size, octstr_grow, octstr_str_replace,
  octstr_str_append,
}

abbrev pub contents : Octstr → List ℕ
contents s = slice s.bytes 0 s.len

-- the octets and the byte after them are in the block
abbrev pub IsValid : Octstr → Type 0
IsValid s = s.len < s.size

pub length-slice : (bytes : ℕ → ℕ) (pos n : ℕ) → length (slice bytes pos n) ≡ n
length-slice bytes pos zero = refl
length-slice bytes pos (suc n) = ap suc (length-slice bytes (pos + 1) n)

slice-eq :
    (f g : ℕ → ℕ) (pos n : ℕ)
    → ((i : ℕ) → pos ≤ i → i < pos + n → f i ≡ g i)
    → slice f pos n ≡ slice g pos n
slice-eq f g pos zero same = refl
slice-eq f g pos (suc n) same =
    let first = same pos (omega arith) (omega arith) in
    let rest = slice-eq f g (pos + 1) n (λ i p q. same i (omega arith) (omega arith)) in cc

spliced-below :
    (bytes : ℕ → ℕ) (pos : ℕ) (src : List ℕ) (i : ℕ) → i < pos → spliced bytes pos src i ≡ bytes i
spliced-below bytes pos [] i h = refl
spliced-below bytes pos (b ∷ bs) i h = ground (arith, spliced-below bytes (pos + 1) bs i)

slice-spliced :
    (bytes : ℕ → ℕ) (pos : ℕ) (src : List ℕ) → slice (spliced bytes pos src) pos (length src) ≡ src
slice-spliced bytes pos [] = refl
slice-spliced bytes pos (b ∷ bs) =
    let rest =
      slice-eq (spliced bytes pos (b ∷ bs)) (spliced bytes (pos + 1) bs) (pos + 1) (length bs)
        (λ i p q. ground arith) in
    let ih = slice-spliced bytes (pos + 1) bs in ground arith

pub slice-split :
    (bytes : ℕ → ℕ) (pos m n : ℕ)
    → slice bytes pos (m + n) ≡ slice bytes pos m ++ slice bytes (pos + m) n
slice-split bytes pos zero n =
    ap (slice bytes pos) (zero-add n) ∙ ap (λ q. slice bytes q n) (sym (add-zero pos))
slice-split bytes pos (suc m) n =
    let count : suc m + n ≡ suc (m + n) = omega arith in
    let place : pos + 1 + m ≡ pos + suc m = omega arith in
    ap (slice bytes pos) count
    ∙ ap (◌∷◌ (bytes pos)) (
        slice-split bytes (pos + 1) m n
        ∙ ap (λ q. slice bytes (pos + 1) m ++ slice bytes q n) place)

-- a byte written elsewhere
poked-slice :
    (bytes : ℕ → ℕ) (i b pos n : ℕ)
    → pos + n ≤ i
    → slice (λ j. if j == i then b else bytes j) pos n ≡ slice bytes pos n
poked-slice bytes i b pos n h = slice-eq _ bytes pos n (λ j p q. ground arith)

calc_size-room : (len : ℕ) → len < octstr_calc_size len
unfolding octstr_calc_size
calc_size-room len = omega arith

calc_size-bound : (len : ℕ) → octstr_calc_size len ≤ len + 1024
unfolding octstr_calc_size
calc_size-bound len = omega arith

-- the block has room for `len` bytes and one more, and the bytes stay
pub octstr_grow_lem :
    (s : Octstr) (len : ℕ)
    → len < 2 ^ 30
    → Returns
        (λ t. (len < t.size) × (s.size ≤ t.size) × (t.bytes ≡ s.bytes) × (t.len ≡ s.len))
        (octstr_grow s len)
unfolding octstr_grow
octstr_grow_lem s len h =
    let size = octstr_calc_size (len + 1) in
    let room = calc_size-room (len + 1) in
    let bound = calc_size-bound (len + 1) in
    let fits : size < 2 ^ 31 = omega arith in
    rw (lt→ltb size (2 ^ 31) fits) (elim (Bool-cases (ltb s.size size)) [
      | inl e ↦ rw e (returns (ground arith, ground arith, refl, refl))
      | inr e ↦ rw e (returns (ground arith, ground arith, refl, refl))
    ])

pub read-ok : (s : Octstr) (pos n : ℕ) → pos + n ≤ s.size → read s pos n ≡ ok (slice s.bytes pos n)
unfolding read
read-ok s pos n h = ground arith

pub read-contents : (s : Octstr) → IsValid s → read s 0 s.len ≡ ok (contents s)
read-contents s h = read-ok s 0 s.len (omega arith)

copy_in-ok :
    (s : Octstr) (pos : ℕ) (src : List ℕ)
    → pos + length src ≤ s.size
    → copy_in s pos src ≡ ok (record s { bytes = spliced s.bytes pos src })
unfolding copy_in
copy_in-ok s pos src h = ground arith

poke-ok :
    (s : Octstr) (i b : ℕ)
    → i < s.size
    → poke s i b ≡ ok (record s { bytes = λ j. if j == i then b else s.bytes j })
unfolding poke
poke-ok s i b h = rw (lt→ltb i s.size h) refl

pub length-contents : (s : Octstr) → length (contents s) ≡ s.len
length-contents s = length-slice s.bytes 0 s.len

-- bytes written behind the first `m`, and a 0 behind these
written :
    (bytes bytes' : ℕ → ℕ) (m m' : ℕ) (src : List ℕ)
    → bytes' ≡ bytes
    → m' ≡ m
    → slice (λ j. if j == m + length src then 0 else spliced bytes' m' src j) 0 (m + length src)
      ≡ slice bytes 0 m ++ src
written bytes bytes' m m' src p q =
    rw (p, q)
      (poked-slice (spliced bytes m src) (m + length src) 0 0 (m + length src) (omega arith)
        ∙ slice-split (spliced bytes m src) 0 m (length src)
        ∙ ap (λ xs. xs ++ slice (spliced bytes m src) (0 + m) (length src))
            (slice-eq (spliced bytes m src) bytes 0 m
              (λ i p q. spliced-below bytes m src i (omega arith)))
        ∙ ap (λ (k : ℕ). slice bytes 0 m ++ slice (spliced bytes m src) k (length src)) (zero-add m)
        ∙ ap (◌++◌ (slice bytes 0 m)) (slice-spliced bytes m src))

append-empty : (xs src : List ℕ) → length src ≡ 0 → xs ≡ xs ++ src
append-empty xs [] e = sym (append-nil xs)
append-empty xs (b ∷ src) e = absurd (omega arith)

-- the string is valid and holds these octets
abbrev pub Holds : List ℕ → Octstr → Type 0
Holds xs s = IsValid s × (contents s ≡ xs)

pub octstr_str_append-Holds :
    (dst : Octstr) (src : List ℕ)
    → IsValid dst
    → dst.len + length src < 2 ^ 30
    → Returns (Holds (contents dst ++ src)) (octstr_str_append dst src)
unfolding octstr_str_append
octstr_str_append-Holds dst src v h =
    let total = dst.len + length src in
    Returns-if (ltb 0 (length src))
      (λ e. rw (lt→ltb total (2 ^ 31) (omega arith)) (
        Returns-bind (octstr_grow_lem dst total h) (λ t (room, _, same, n).
          rw
            (
              copy_in-ok t t.len src (omega arith),
              poke-ok (record t { bytes = spliced t.bytes t.len src }) total 0 room,
            )
            (returns (room, written dst.bytes t.bytes dst.len t.len src same n)))))
      (λ e. returns (v, append-empty (contents dst) src (ground arith)))

-- octstr_str_replace needs no valid string: its block may not be there
pub octstr_str_replace-Holds :
    (dst : Octstr) (src : List ℕ)
    → length src < 2 ^ 30
    → Returns (Holds src) (octstr_str_replace dst src)
unfolding octstr_str_replace
octstr_str_replace-Holds dst src h =
    Returns-bind (octstr_grow_lem dst (length src) h) (λ t (room, _, same, n).
      Returns-if (ltb 0 (length src))
        (λ e.
          rw
            (
              copy_in-ok t 0 src (omega arith),
              poke-ok (record t { bytes = spliced t.bytes 0 src }) (length src) 0 room,
            )
            (returns (
              room,
              poked-slice (spliced t.bytes 0 src) (length src) 0 0 (length src) (omega arith)
                  ∙ slice-spliced t.bytes 0 src,
            )))
        (λ e. returns (omega arith, append-empty [] src (ground arith))))
