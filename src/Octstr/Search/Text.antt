-- ===== src/Octstr/Search/Text.antt =====
-- octstr.c: the calls that hand the C string of a block to the C library. strcasecmp and strtol are
-- parameters; the result of a comparison stands for its sign.
use Prim.Native.Nat.{Ordering}
use bflib.Base.{ℕ, Option, none, some, List, ◌==◌, if◌then◌else◌}
use bflib.Run.{Run, ok, ◌>>=◌}
use bflib.Octstr.{Octstr}
use bflib.Octstr.Search.{c_string}

module _ (strcasecmp : List ℕ → List ℕ → Ordering) where
  pub octstr_casecmp : Octstr → Octstr → Run Ordering
  octstr_casecmp s1 s2 = do
    str1 ← c_string s1.size s1 0
    str2 ← c_string s2.size s2 0
    ok (strcasecmp str1 str2)

  pub octstr_str_casecmp : Octstr → List ℕ → Run Ordering
  octstr_str_casecmp s1 s2 = c_string s1.size s1 0 >>= λ str1. ok (strcasecmp str1 s2)

-- strtol to the base 10 gives the number and the count of characters that it takes; octstr_tol
-- gives the count and the number, and `none` is -1
pub octstr_tol : {Long : Type 0} (strtol : List ℕ → Long × ℕ) → Octstr → Run (Option (ℕ × Long))
octstr_tol strtol s = if s.len == 0 then ok none else (do
  str ← c_string s.size s 0
  let (v, taken) = strtol str
  ok (if taken == s.len then some (taken, v) else none))
