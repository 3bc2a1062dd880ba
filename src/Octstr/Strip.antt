-- ===== src/Octstr/Strip.antt =====
-- octstr.c: the search for an octet, and octstr_strip. strchr, with the string it searches, is a
-- parameter.
pub mod Trim
use bflib.Base.{
  ℕ, zero, suc, ◌+◌, ◌-◌, ◌≤◌, ◌<◌, ◌≡◌, refl, sym, ap, ◌∙◌, Option, none, some, List, [], ◌∷◌,
  length, take, arith, ltb, leb, ◌==◌, if◌then◌else◌, Bool, true, false,
}
use bflib.Run.{Run, ok, fault, Returns, returns, Returns-bind, ◌>>=◌}
use bflib.Octstr.{Octstr, octstr_substr, octstr_erase, octstr_replace}

-- `p[i]`, in the block
octet_at : Octstr → ℕ → Run ℕ
octet_at s i = if ltb i s.size then ok (s.bytes i) else fault

-- `for( i = pos ; i < len ; i++ )`, with len - i rounds left
index_loop : (rounds : ℕ) → Octstr → ℕ → ℕ → Run (Option ℕ)
index_loop zero s i oct = ok none
index_loop (suc rounds) s i oct =
    let rest = index_loop rounds s (i + 1) oct in
    octet_at s i >>= λ b. if b == oct then ok (some i) else rest

-- `none` is -1
pub octstr_oct_index : Octstr → ℕ → ℕ → Run (Option ℕ)
unfolding index_loop octet_at
octstr_oct_index s pos oct = index_loop (s.len - pos) s pos oct

-- " \n\r\t"
abbrev space_chars : List ℕ
space_chars = 32 ∷ 10 ∷ 13 ∷ 9 ∷ []

-- `strchr` stands for the test that its result is not NULL.
module _ (strchr : List ℕ → ℕ → Bool) where
  -- `pos1`, with len - pos1 rounds left
  first_loop : (rounds : ℕ) → Octstr → ℕ → Run ℕ
  first_loop zero s pos1 = ok pos1
  first_loop (suc rounds) s pos1 =
      let rest = first_loop rounds s (pos1 + 1) in
      octet_at s pos1 >>= λ c. if strchr space_chars c then rest else ok pos1

  -- pos2 + 1: the positions below it are left
  last_loop : Octstr → (count : ℕ) → Run ℕ
  last_loop s zero = ok zero
  last_loop s (suc pos2) =
      let rest = last_loop s pos2 in
      octet_at s pos2 >>= λ c. if strchr space_chars c then rest else ok (suc pos2)

  strip_between : (memory : ℕ → ℕ) → Octstr → ℕ → Run Octstr
  strip_between memory s pos1 = if pos1 == s.len then octstr_erase s else (do
    last ← last_loop s s.len
    tmp ← octstr_substr memory s pos1 (last - pos1)
    octstr_replace s tmp)

  pub octstr_strip : (memory : ℕ → ℕ) → Octstr → Run Octstr
  unfolding first_loop last_loop strip_between octet_at
  octstr_strip memory s =
      if s.len == 0 then ok s else (first_loop s.len s 0 >>= λ pos1. strip_between memory s pos1)
