-- ===== src/Octstr/Search.antt =====
-- octstr.c: the searches for a string and the replacement of its occurrences. strstr and
-- strcasestr are parameters: the distance to the first occurrence of a C string in another.
pub mod Replace
pub mod Text
mod Tests
use bflib.Base.{
  ℕ, zero, suc, ◌+◌, ◌-◌, Option, none, some, List, [], ◌∷◌, ltb, leb, ◌==◌, if◌then◌else◌,
}
use bflib.Run.{Run, ok, fault, out_of_fuel, ◌>>=◌}
use bflib.Octstr.{Octstr, octstr_create, octstr_substr, octstr_append}

-- the C string at a position of the block, with size - pos rounds left
c_string : (rounds : ℕ) → Octstr → ℕ → Run (List ℕ)
c_string zero s pos = fault
c_string (suc rounds) s pos =
    let rest = c_string rounds s (pos + 1) in
    if s.bytes pos == 0 then ok [] else (rest >>= λ bs. ok (s.bytes pos ∷ bs))

found_at : ℕ → Option ℕ → Option ℕ
found_at pos none = none
found_at pos (some distance) = some (pos + distance)

search : (List ℕ → List ℕ → Option ℕ) → Octstr → ℕ → List ℕ → Run (Option ℕ)
unfolding c_string found_at
search strstr s pos str =
    if leb s.len pos
    then ok none
    else (c_string (s.size - pos) s pos >>= λ p. ok (found_at pos (strstr p str)))

-- `none` is -1
module _ (strstr : List ℕ → List ℕ → Option ℕ) where
  pub octstr_str_index : Octstr → ℕ → List ℕ → Run (Option ℕ)
  unfolding search
  octstr_str_index s pos str = search strstr s pos str

  pub octstr_index : Octstr → ℕ → Octstr → Run (Option ℕ)
  unfolding octstr_str_index c_string
  octstr_index s pos str = c_string str.size str 0 >>= λ str. octstr_str_index s pos str

module _ (strcasestr : List ℕ → List ℕ → Option ℕ) where
  pub octstr_str_caseindex : Octstr → ℕ → List ℕ → Run (Option ℕ)
  unfolding search
  octstr_str_caseindex s pos str = search strcasestr s pos str

  pub octstr_caseindex : Octstr → ℕ → Octstr → Run (Option ℕ)
  unfolding octstr_str_caseindex c_string
  octstr_caseindex s pos str = c_string str.size str 0 >>= λ str. octstr_str_caseindex s pos str

-- the test `> 0` stops at -1 and at 0
positive : Option ℕ → ℕ
positive none = 0
positive (some pos1) = pos1

-- the string built so far and the position behind the last occurrence
replace_loop :
    (find : Octstr → ℕ → Octstr → Run (Option ℕ)) (memory : ℕ → ℕ) (s what replace : Octstr)
    → (fuel : ℕ) → Octstr
    → ℕ
    → Run (Octstr × ℕ)
unfolding positive
replace_loop find memory s what replace zero s1 pos = out_of_fuel
replace_loop find memory s what replace (suc fuel) s1 pos = find s pos what >>= λ found.
    let pos1 = positive found in
    if ltb 0 pos1
    then (do
      tmp ← octstr_substr memory s pos (pos1 - pos)
      s1 ← octstr_append s1 tmp
      s1 ← octstr_append s1 replace
      replace_loop find memory s what replace fuel s1 (pos1 + what.len))
    else ok (s1, pos)

octstr_find_and_replace1 :
    (find : Octstr → ℕ → Octstr → Run (Option ℕ)) (memory : ℕ → ℕ) (s what replace : Octstr)
    → Run Octstr
unfolding replace_loop
octstr_find_and_replace1 find memory s what replace = do
  s1 ← octstr_create memory []
  (s1, pos) ← replace_loop find memory s what replace (s.len + 1) s1 0
  tmp ← octstr_substr memory s pos (s.len - pos)
  octstr_append s1 tmp

pub octstr_find_and_replace :
    (strstr : List ℕ → List ℕ → Option ℕ) (memory : ℕ → ℕ) (s what replace : Octstr) → Run Octstr
unfolding octstr_find_and_replace1
octstr_find_and_replace strstr memory s what replace =
    octstr_find_and_replace1 (octstr_index strstr) memory s what replace

pub octstr_case_find_and_replace :
    (strcasestr : List ℕ → List ℕ → Option ℕ) (memory : ℕ → ℕ) (s what replace : Octstr)
    → Run Octstr
unfolding octstr_find_and_replace1
octstr_case_find_and_replace strcasestr memory s what replace =
    octstr_find_and_replace1 (octstr_caseindex strcasestr) memory s what replace
