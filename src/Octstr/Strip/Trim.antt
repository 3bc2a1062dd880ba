-- ===== src/Octstr/Strip/Trim.antt =====
-- octstr.c: octstr_strip on the octets of a string.
use bflib.Base.{
  Bool-cases, inl, inr, ◌^◌, ℕ, zero, suc, ◌+◌, ◌-◌, ◌≤◌, ◌<◌, ◌≡◌, refl, sym, ap, ◌∙◌, List, [],
  ◌∷◌, ◌++◌, length, arith, leb, lt→ltb, ◌==◌, if◌then◌else◌, Bool, true, false,
}
use bflib.Run.{ok, Returns, returns, Returns-bind, Returns-map, Returns-if}
use bflib.Octstr.{Octstr, slice, octstr_erase}
use bflib.Octstr.Contents.{
  contents, IsValid, Holds, length-contents, length-slice, slice-split, octstr_str_replace-Holds,
}
use bflib.Octstr.Edit.{octstr_substr-Holds, octstr_replace-Holds, range_inside}
use bflib.Octstr.Strip.{octet_at, first_loop, last_loop, strip_between, octstr_strip, space_chars}

-- without the items at the start that satisfy a test, and without those at the end
pub trim_left : (ℕ → Bool) → List ℕ → List ℕ
trim_left p [] = []
trim_left p (x ∷ xs) = let rest = trim_left p xs in if p x then rest else x ∷ xs

end_with : Bool → ℕ → List ℕ → List ℕ
end_with blank x [] = if blank then [] else x ∷ []
end_with blank x (y ∷ ys) = x ∷ y ∷ ys

pub trim_right : (ℕ → Bool) → List ℕ → List ℕ
unfolding end_with
trim_right p [] = []
trim_right p (x ∷ xs) = end_with (p x) x (trim_right p xs)

end_with-snoc :
    (blank : Bool) (x y : ℕ) (xs : List ℕ) → end_with blank x (xs ++ y ∷ []) ≡ x ∷ (xs ++ y ∷ [])
unfolding end_with
end_with-snoc blank x y [] = refl
end_with-snoc blank x y (z ∷ xs) = refl

trim_right-blank :
    (p : ℕ → Bool) (xs : List ℕ) (y : ℕ)
    → p y ≡ true
    → trim_right p (xs ++ y ∷ []) ≡ trim_right p xs
unfolding trim_right end_with
trim_right-blank p [] y e = rw (e) refl
trim_right-blank p (x ∷ xs) y e = ap (end_with (p x) x) (trim_right-blank p xs y e)

trim_right-keep :
    (p : ℕ → Bool) (xs : List ℕ) (y : ℕ) → p y ≡ false → trim_right p (xs ++ y ∷ []) ≡ xs ++ y ∷ []
unfolding trim_right end_with
trim_right-keep p [] y e = rw (e) refl
trim_right-keep p (x ∷ xs) y e =
    ap (end_with (p x) x) (trim_right-keep p xs y e) ∙ end_with-snoc (p x) x y xs

octet_at-ok : (s : Octstr) (i : ℕ) → i < s.size → octet_at s i ≡ ok (s.bytes i)
unfolding octet_at
octet_at-ok s i h = rw (lt→ltb i s.size h) refl

slice-last :
    (bytes : ℕ → ℕ) (a c : ℕ)
    → a ≤ c
    → slice bytes a (suc c - a) ≡ slice bytes a (c - a) ++ bytes c ∷ []
slice-last bytes a c h =
    let count : suc c - a ≡ c - a + 1 = omega arith in
    let place : a + (c - a) ≡ c = omega arith in
    ap (slice bytes a) count
    ∙ slice-split bytes a (c - a) 1
    ∙ ap (λ (q : ℕ). slice bytes a (c - a) ++ bytes q ∷ []) place

empty-slice : (bytes : ℕ → ℕ) (a c : ℕ) → c ≤ a → slice bytes a (c - a) ≡ []
empty-slice bytes a c h = let none_left : c - a ≡ 0 = omega arith in ap (slice bytes a) none_left

trim_slice-blank :
    (p : ℕ → Bool) (bytes : ℕ → ℕ) (a c : ℕ)
    → p (bytes c) ≡ true
    → trim_right p (slice bytes a (c - a)) ≡ trim_right p (slice bytes a (suc c - a))
trim_slice-blank p bytes a c e = elim (Bool-cases (leb a c)) [
  | inl h ↦ sym (
      ap (trim_right p) (slice-last bytes a c (ground arith))
      ∙ trim_right-blank p (slice bytes a (c - a)) (bytes c) e)
  | inr h ↦
      ap (trim_right p)
        (empty-slice bytes a c (ground arith) ∙ sym (empty-slice bytes a (suc c) (ground arith)))
]

trim_slice-keep :
    (p : ℕ → Bool) (bytes : ℕ → ℕ) (a c : ℕ)
    → p (bytes c) ≡ false
    → slice bytes a (suc c - a) ≡ trim_right p (slice bytes a (suc c - a))
unfolding trim_right
trim_slice-keep p bytes a c e = elim (Bool-cases (leb a c)) [
  | inl h ↦
      let last = slice-last bytes a c (ground arith) in
      last
      ∙ sym (trim_right-keep p (slice bytes a (c - a)) (bytes c) e)
      ∙ ap (trim_right p) (sym last)
  | inr h ↦
      let none_left = empty-slice bytes a (suc c) (ground arith) in
      none_left ∙ ap (trim_right p) (sym none_left)
]

module _ (strchr : List ℕ → ℕ → Bool) where
  abbrev pub blank : ℕ → Bool
  blank c = strchr space_chars c

  first_loop_lem :
      (rounds : ℕ) (s : Octstr) (pos1 : ℕ)
      → pos1 + rounds < s.size
      → Returns
          (λ p.
            (p ≤ pos1 + rounds)
            × (slice s.bytes p (pos1 + rounds - p) ≡ trim_left blank (slice s.bytes pos1 rounds)))
          (first_loop strchr rounds s pos1)
  unfolding first_loop trim_left
  first_loop_lem zero s pos1 h =
      let none_left : pos1 + 0 - pos1 ≡ 0 = omega arith in
      returns (omega arith, ap (slice s.bytes pos1) none_left)
  first_loop_lem (suc rounds) s pos1 h =
      let total : pos1 + 1 + rounds ≡ pos1 + suc rounds = omega arith in
      let whole : pos1 + suc rounds - pos1 ≡ suc rounds = omega arith in
      rw (octet_at-ok s pos1 (omega arith)) (elim (Bool-cases (blank (s.bytes pos1))) [
        | inl e ↦ rw e (
            Returns-map (first_loop_lem rounds s (pos1 + 1) (omega arith)) λ p (low, same).
              (omega arith, ap (λ (k : ℕ). slice s.bytes p (k - p)) (sym total) ∙ same))
        | inr e ↦ rw e (returns (omega arith, ap (slice s.bytes pos1) whole))
      ])

  last_loop_lem :
      (s : Octstr) (count a : ℕ)
      → count < s.size
      → Returns
          (λ c.
            (c ≤ count)
            × (slice s.bytes a (c - a) ≡ trim_right blank (slice s.bytes a (count - a))))
          (last_loop strchr s count)
  unfolding last_loop trim_right
  last_loop_lem s zero a h =
      let none_left : 0 - a ≡ 0 = omega arith in returns (omega arith, rw (none_left) refl)
  last_loop_lem s (suc pos2) a h =
      rw (octet_at-ok s pos2 (omega arith)) (elim (Bool-cases (blank (s.bytes pos2))) [
        | inl e ↦ rw e (
            Returns-map (last_loop_lem s pos2 a (omega arith))
              λ c (low, same). (omega arith, same ∙ trim_slice-blank blank s.bytes a pos2 e))
        | inr e ↦ rw e (returns (omega arith, trim_slice-keep blank s.bytes a pos2 e))
      ])

  strip_between_lem :
      (memory : ℕ → ℕ) (s : Octstr) (pos1 : ℕ) (xs : List ℕ)
      → IsValid s
      → s.len < 2 ^ 30
      → pos1 ≤ s.len
      → slice s.bytes pos1 (s.len - pos1) ≡ xs
      → Returns (Holds (trim_right blank xs)) (strip_between strchr memory s pos1)
  unfolding strip_between octstr_erase trim_right
  strip_between_lem memory s pos1 xs v h low same =
      Returns-if (pos1 == s.len)
        (λ e.
          let no_octet = sym same ∙ empty-slice s.bytes pos1 s.len (ground arith) in
          Returns-map (octstr_str_replace-Holds s [] (omega arith))
            λ t (w, all). (w, all ∙ sym (ap (trim_right blank) no_octet)))
        (λ e. Returns-bind (last_loop_lem s s.len pos1 v) (λ last (within, cut).
          let range = range_inside s pos1 (last - pos1) (omega arith) in
          Returns-bind (octstr_substr-Holds memory s pos1 (last - pos1) v h (omega arith))
            (λ tmp (w, all).
              let trimmed = all ∙ sym range ∙ cut ∙ ap (trim_right blank) same in
              let n : tmp.len ≤ s.len = omega (
                arith,
                length-contents tmp,
                ap length (all ∙ sym range),
                length-slice s.bytes pos1 (last - pos1),
              ) in
              Returns-map (octstr_replace-Holds s tmp w (omega arith))
                λ t (w', all'). (w', all' ∙ trimmed))))

  -- octstr_strip on a valid string shorter than 2 ^ 30 returns a valid string of the octets
  -- between the space characters at its start and those at its end; strchr says which these are.
  pub octstr_strip-trim :
      (memory : ℕ → ℕ) (s : Octstr)
      → IsValid s
      → s.len < 2 ^ 30
      → Returns
          (Holds (trim_right blank (trim_left blank (contents s))))
          (octstr_strip strchr memory s)
  unfolding octstr_strip trim_left trim_right
  octstr_strip-trim memory s v h =
      Returns-if (s.len == 0)
        (λ e.
          let empty : s.len ≡ 0 = ground arith in
          let no_octet = ap (slice s.bytes 0) empty in
          returns (v, no_octet ∙ sym (ap (λ xs. trim_right blank (trim_left blank xs)) no_octet)))
        (λ e. Returns-bind (first_loop_lem s.len s 0 (omega arith)) (λ pos1 (within, same).
          let whole : 0 + s.len ≡ s.len = omega arith in
          strip_between_lem memory s pos1 _ v h (omega arith)
            (ap (λ (k : ℕ). slice s.bytes pos1 (k - pos1)) (sym whole) ∙ same)))
