-- ===== src/Octstr/Search/Tests.antt =====
-- Runs of the searches of octstr.c on small strings, with a strstr that is written out.
use bflib.Base.{
  inr, ℕ, suc, ◌+◌, ◌≤◌, ◌≡◌, refl, Bool, true, false, ◌&&◌, Option, none, some, List, [], ◌∷◌,
  ◌++◌, length, arith, ◌==◌, if◌then◌else◌,
}
use bflib.Run.{ok, Returns}
use bflib.Octstr.{Octstr, spliced}
use bflib.Octstr.Contents.{contents, IsValid, Holds}
use bflib.Octstr.Search.{
  octstr_index, octstr_str_index, octstr_find_and_replace, search, c_string, found_at,
}
use bflib.Octstr.Search.Replace.{octstr_find_and_replace_lem, octstr_find_and_replace-none}

abbrev is_start : List ℕ → List ℕ → Bool
is_start [] hay = true
is_start (n ∷ needle) [] = false
is_start (n ∷ needle) (h ∷ hay) = let rest = is_start needle hay in (n == h) && rest

abbrev one_on : Option ℕ → Option ℕ
one_on none = none
one_on (some k) = some (suc k)

abbrev first_place : List ℕ → List ℕ → Option ℕ
first_place [] needle = if is_start needle [] then some 0 else none
first_place (h ∷ hay) needle =
    let rest = first_place hay needle in if is_start needle (h ∷ hay) then some 0 else one_on rest

length-is_start : (needle hay : List ℕ) → is_start needle hay ≡ true → length needle ≤ length hay
length-is_start [] hay e = omega arith
length-is_start (n ∷ needle) [] e = absurd (ground arith)
length-is_start (n ∷ needle) (h ∷ hay) e = let ih = length-is_start needle hay in ground arith

one_on-within :
    (o : Option ℕ) (n m : ℕ)
    → ((k : ℕ) → o ≡ some k → k + n ≤ m)
    → (k : ℕ) → one_on o ≡ some k
    → k + n ≤ suc m
one_on-within none n m known k e = absurd (ground arith)
one_on-within (some j) n m known k e = let ih = known j refl in ground arith

first_place-within :
    (hay needle : List ℕ) (k : ℕ) → first_place hay needle ≡ some k → k + length needle ≤ length hay
first_place-within [] needle k e = let start = length-is_start needle [] in ground arith
first_place-within (h ∷ hay) needle k e =
    let start = length-is_start needle (h ∷ hay) in
    let later =
      one_on-within (first_place hay needle) (length needle) (length hay)
        (first_place-within hay needle) k in
    ground arith

abbrev memory : ℕ → ℕ
memory i = 7

abbrev string_of : List ℕ → Octstr
string_of xs = record { bytes = spliced memory 0 (xs ++ 0 ∷ []); len = length xs; size = 12 }

-- "abcab", and "b" for "xy" in it
abbrev sample : Octstr
sample = string_of (97 ∷ 98 ∷ 99 ∷ 97 ∷ 98 ∷ [])

abbrev what : Octstr
what = string_of (98 ∷ [])

abbrev replace : Octstr
replace = string_of (120 ∷ 121 ∷ [])

found_from_two : octstr_index first_place sample 2 what ≡ ok (some 4)
unfolding octstr_index octstr_str_index search c_string found_at
found_from_two = refl

octstr_find_and_replace_lem_example :
    Returns IsValid (octstr_find_and_replace first_place memory sample what replace)
octstr_find_and_replace_lem_example =
    octstr_find_and_replace_lem first_place memory sample what replace first_place-within
      (omega arith, refl) (omega arith, refl) (omega arith) (omega arith) (omega arith)
      (omega arith)

-- "a" is at the start of "abcab", and no "a" is replaced
at_start : octstr_index first_place sample 0 (string_of (97 ∷ [])) ≡ ok (some 0)
unfolding octstr_index octstr_str_index search c_string found_at
at_start = refl

octstr_find_and_replace-none_example :
    Returns
      (Holds (contents sample))
      (octstr_find_and_replace first_place memory sample (string_of (97 ∷ [])) replace)
octstr_find_and_replace-none_example =
    octstr_find_and_replace-none first_place memory sample (string_of (97 ∷ [])) replace (some 0)
      (omega arith) (omega arith) at_start (inr refl)
