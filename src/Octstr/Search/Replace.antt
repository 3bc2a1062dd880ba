-- ===== src/Octstr/Search/Replace.antt =====
-- octstr.c: the replacement of the occurrences of a string comes to an end.
use native.Mathlib.Nat.{mul-le-mul_left, mul-le-mul_right, mul-add, add-mul}
use bflib.Base.{
  ◌⊎◌, inl, inr, ◌^◌, ℕ, zero, suc, ◌+◌, ◌-◌, ◌*◌, ◌≤◌, ◌<◌, ◌≡◌, refl, ap, ◌∙◌, Option, none, some,
  List, [], ◌∷◌, ◌++◌, length, length-append, take, drop, arith, ltb, leb, ◌==◌,
}
use bflib.Run.{Run, ok, Returns, returns, Returns-bind, Returns-map, Returns-if, ◌>>=◌}
use bflib.Octstr.{Octstr, octstr_substr, octstr_append}
use bflib.Octstr.Contents.{contents, IsValid, Holds, length-contents}
use bflib.Octstr.Edit.{octstr_create-Holds, octstr_substr-Holds, octstr_append-Holds, take-length}
use bflib.Octstr.Search.{
  c_string, found_at, search, octstr_str_index, octstr_index, positive, replace_loop,
  octstr_find_and_replace1, octstr_find_and_replace,
}

-- a valid string with its terminating 0
abbrev pub IsTerminated : Octstr → Type 0
IsTerminated s = IsValid s × (s.bytes s.len ≡ 0)

c_string_lem :
    (rounds : ℕ) (s : Octstr) (pos k : ℕ)
    → pos + k ≡ s.len
    → k < rounds
    → s.bytes s.len ≡ 0
    → Returns (λ bs. length bs ≤ k) (c_string rounds s pos)
unfolding c_string
c_string_lem zero s pos k e h z = absurd (omega arith)
c_string_lem (suc rounds) s pos k e h z =
    Returns-if (s.bytes pos == 0) (λ _. returns (omega arith))
      (λ other.
        elim k
            as (λ k.
              pos + k ≡ s.len
              → k < suc rounds
              → Returns (λ bs. length bs ≤ k)
                  (c_string rounds s (pos + 1) >>= λ bs. ok (s.bytes pos ∷ bs))) [
                    | zero ↦ λ e' h'.
                        let place : pos ≡ s.len = omega arith in
                        let here = ap s.bytes place ∙ z in absurd (ground arith)
                    | suc k ↦ λ e' h'.
                        Returns-bind
                          (c_string_lem rounds s (pos + 1) k (omega arith) (omega arith) z)
                          (λ bs short. returns (omega arith))
                  ]
          e h)

-- -1 or 0, or a position in the string from `pos` on
Found : Octstr → ℕ → Option ℕ → Type 0
unfolding positive
Found s pos found =
    (positive found ≡ 0) ⊎ ((pos < s.len) × (pos ≤ positive found) × (positive found ≤ s.len))

found_at-Found :
    (s : Octstr) (pos : ℕ) (hay needle : List ℕ) (distance : Option ℕ)
    → ((k : ℕ) → distance ≡ some k → k + length needle ≤ length hay)
    → pos < s.len
    → length hay ≤ s.len - pos
    → Found s pos (found_at pos distance)
unfolding Found found_at positive
found_at-Found s pos hay needle none known inside short = inl refl
found_at-Found s pos hay needle (some k) known inside short =
    let within = known k refl in inr (inside, omega arith, omega arith)

index-Found :
    (strstr : List ℕ → List ℕ → Option ℕ) (s what : Octstr) (pos : ℕ)
    → ((hay needle : List ℕ) (k : ℕ) → strstr hay needle ≡ some k → k + length needle ≤ length hay)
    → IsTerminated s
    → IsTerminated what
    → Returns (Found s pos) (octstr_index strstr s pos what)
unfolding octstr_index octstr_str_index search Found positive
index-Found strstr s what pos known (v, z) (w, z') =
    Returns-bind (c_string_lem what.size what 0 what.len (omega arith) w z') (λ needle _.
      Returns-if (leb s.len pos) (λ outside. returns (inl refl))
        (λ inside.
          Returns-bind
            (c_string_lem (s.size - pos) s pos (s.len - pos) (ground arith) (ground arith) z)
            (λ hay short. returns (
              found_at-Found s pos hay needle (strstr hay needle) (known hay needle) (ground arith)
                short))))

-- the octets that are added in a round
round_bound :
    (n pos pos1 extra : ℕ)
    → n ≤ pos * (extra + 1)
    → pos ≤ pos1
    → n + (pos1 - pos) + extra ≤ (pos1 + 1) * (extra + 1)
round_bound n pos pos1 extra h low = omega (
  arith,
  mul-le-mul_right extra low,
  mul-add pos extra 1,
  add-mul pos1 1 (extra + 1),
  mul-add pos1 extra 1,
)

length-take_bound : (n : ℕ) (xs : List ℕ) → length (take n xs) ≤ n
length-take_bound zero xs = omega arith
length-take_bound (suc n) [] = omega arith
length-take_bound (suc n) (x ∷ xs) = omega (arith, length-take_bound n xs)

substr_bound :
    (memory : ℕ → ℕ) (s : Octstr) (pos n : ℕ)
    → IsValid s
    → s.len < 2 ^ 30
    → pos + n < 2 ^ 31
    → Returns (λ t. IsValid t × (t.len ≤ n)) (octstr_substr memory s pos n)
substr_bound memory s pos n v h fits =
    Returns-map (octstr_substr-Holds memory s pos n v h fits) λ t (w, all). (
      w,
      omega (arith, length-contents t, ap length all, length-take_bound n (drop pos (contents s))),
    )

append_bound :
    (dst src : Octstr)
    → IsValid dst
    → IsValid src
    → dst.len + src.len < 2 ^ 30
    → Returns (λ t. IsValid t × (t.len ≡ dst.len + src.len)) (octstr_append dst src)
append_bound dst src v w h = Returns-map (octstr_append-Holds dst src v w h) λ t (u, all). (
  u,
  omega (
    arith,
    length-contents t,
    length-contents dst,
    length-contents src,
    ap length all,
    length-append (contents dst) (contents src),
  ),
)

-- what a round leaves: the string is valid, and short for the position
InRound : (s what replace : Octstr) → Octstr × ℕ → Type 0
InRound s what replace (s1, pos) =
    IsValid s1
    × (s1.len ≤ pos * (replace.len + 1))
    × (s1.len ≤ (s.len + 1) * (replace.len + 1))
    × (pos ≤ s.len + what.len)

replace_loop_lem :
    (find : Octstr → ℕ → Octstr → Run (Option ℕ)) (memory : ℕ → ℕ) (s what replace : Octstr)
    (fuel : ℕ) (s1 : Octstr) (pos : ℕ)
    → ((pos : ℕ) → Returns (Found s pos) (find s pos what))
    → IsValid s
    → IsValid replace
    → 0 < what.len
    → (s.len + 1) * (replace.len + 1) < 2 ^ 29
    → s.len < pos + fuel
    → 0 < fuel
    → InRound s what replace (s1, pos)
    → Returns (InRound s what replace) (replace_loop find memory s what replace fuel s1 pos)
unfolding replace_loop InRound Found positive
replace_loop_lem find memory s what replace zero s1 pos search v w some_what small h more inv =
    absurd (omega arith)
replace_loop_lem find memory s what replace (suc fuel) s1 pos search v w some_what small h more
      (v1, n1, total, place) =
    Returns-bind (search pos) (λ found seen.
      let pos1 = positive found in
      Returns-if (ltb 0 pos1)
        (λ match. elim seen [
          | inl e ↦ absurd (ground arith)
          | inr (inside, low, high) ↦
              let grown = round_bound s1.len pos pos1 replace.len n1 low in
              let most =
                mul-le-mul_right {m = pos1 + 1} {n = s.len + 1} (replace.len + 1) (omega arith) in
              let next =
                mul-le-mul_right {m = pos1 + 1} {n = pos1 + what.len} (replace.len + 1)
                  (omega arith) in
              let wide = mul-le-mul_left {m = 1} {n = replace.len + 1} (s.len + 1) (omega arith) in
              Returns-bind (substr_bound memory s pos (pos1 - pos) v (omega arith) (omega arith))
                (λ tmp (u, n). Returns-bind (append_bound s1 tmp v1 u (omega arith)) (λ s2 (v2, n2).
                  Returns-bind (append_bound s2 replace v2 w (omega arith)) (λ s3 (v3, n3).
                    replace_loop_lem find memory s what replace fuel s3 (pos1 + what.len) search v w
                      some_what small (omega arith) (omega arith)
                      (v3, omega arith, omega arith, omega arith))))
        ])
        (λ done. returns (v1, n1, total, place)))

-- octstr_find_and_replace returns a valid string within the fuel of one more than the length, if
-- the string searched in is valid and ends with a 0; the one searched for too, and it is not
-- empty and shorter than 2 ^ 30; the replacement is valid; the product of its length and that of
-- the string, each one more, is below 2 ^ 29; and strstr gives only places where the needle fits.
pub octstr_find_and_replace_lem :
    (strstr : List ℕ → List ℕ → Option ℕ) (memory : ℕ → ℕ) (s what replace : Octstr)
    → ((hay needle : List ℕ) (k : ℕ) → strstr hay needle ≡ some k → k + length needle ≤ length hay)
    → IsTerminated s
    → IsTerminated what
    → IsValid replace
    → 0 < what.len
    → what.len < 2 ^ 30
    → (s.len + 1) * (replace.len + 1) < 2 ^ 29
    → Returns IsValid (octstr_find_and_replace strstr memory s what replace)
unfolding octstr_find_and_replace octstr_find_and_replace1 InRound
octstr_find_and_replace_lem strstr memory s what replace known (v, z) (w, z') u some_what bound
      small =
    let wide = mul-le-mul_left {m = 1} {n = replace.len + 1} (s.len + 1) (omega arith) in
    Returns-bind (octstr_create-Holds memory [] (omega arith)) (λ s1 (v1, empty).
      let n1 : s1.len ≡ 0 = omega (arith, length-contents s1, ap length empty) in
      Returns-bind
        (replace_loop_lem (octstr_index strstr) memory s what replace (s.len + 1) s1 0
          (λ pos. index-Found strstr s what pos known (v, z) (w, z')) v u some_what small
          (omega arith) (omega arith) (v1, omega arith, omega arith, omega arith))
        (λ (s2, pos) (v2, _, n2, place).
          Returns-bind (substr_bound memory s pos (s.len - pos) v (omega arith) (omega arith))
            (λ tmp (v3, n3).
              Returns-map (append_bound s2 tmp v2 v3 (omega arith)) λ t (v4, _). v4)))

replace_loop-none :
    (find : Octstr → ℕ → Octstr → Run (Option ℕ)) (memory : ℕ → ℕ) (s what replace : Octstr)
    (fuel : ℕ) (s1 : Octstr) (pos : ℕ) (found : Option ℕ)
    → 0 < fuel
    → find s pos what ≡ ok found
    → found ≡ none ⊎ found ≡ some 0
    → replace_loop find memory s what replace fuel s1 pos ≡ ok (s1, pos)
unfolding replace_loop positive
replace_loop-none find memory s what replace zero s1 pos found h e at_start = absurd (omega arith)
replace_loop-none find memory s what replace (suc fuel) s1 pos found h e (inl at_start) =
    rw (e, at_start) refl
replace_loop-none find memory s what replace (suc fuel) s1 pos found h e (inr at_start) =
    rw (e, at_start) refl

-- On a valid string shorter than 2 ^ 29 in which octstr_index finds nothing, or finds the first
-- occurrence at position 0, octstr_find_and_replace replaces nothing: the result is a valid
-- string of the same octets.
pub octstr_find_and_replace-none :
    (strstr : List ℕ → List ℕ → Option ℕ) (memory : ℕ → ℕ) (s what replace : Octstr)
    (found : Option ℕ)
    → IsValid s
    → s.len < 2 ^ 29
    → octstr_index strstr s 0 what ≡ ok found
    → found ≡ none ⊎ found ≡ some 0
    → Returns (Holds (contents s)) (octstr_find_and_replace strstr memory s what replace)
unfolding octstr_find_and_replace octstr_find_and_replace1
octstr_find_and_replace-none strstr memory s what replace found v h e at_start =
    let place : s.len - 0 ≡ length (contents s) = omega (arith, length-contents s) in
    let whole = ap (λ (n : ℕ). take n (contents s)) place ∙ take-length (contents s) in
    Returns-bind (octstr_create-Holds memory [] (omega arith)) (λ s1 (v1, empty).
      rw
        (replace_loop-none (octstr_index strstr) memory s what replace (s.len + 1) s1 0 found
          (omega arith) e at_start)
        (Returns-bind (octstr_substr-Holds memory s 0 (s.len - 0) v (omega arith) (omega arith))
          (λ tmp (v2, all).
            let n1 : s1.len ≡ 0 = omega (arith, length-contents s1, ap length empty) in
            let n2 : tmp.len ≡ s.len =
              omega (arith, length-contents tmp, length-contents s, ap length (all ∙ whole)) in
            Returns-map (octstr_append-Holds s1 tmp v1 v2 (omega arith))
              λ t (v3, all'). (v3, all' ∙ ap (λ xs. xs ++ contents tmp) empty ∙ all ∙ whole))))
