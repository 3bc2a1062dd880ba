-- ===== src/Octstr/Tests.antt =====
-- Runs of octstr.c on small strings.
use bflib.Base.{
  ℕ, ◌+◌, ◌%◌, ◌^◌, ◌≤◌, ◌≡◌, refl, Bool, ◌||◌, none, some, List, [], ◌∷◌, ◌++◌, length, take, drop,
  arith, ltb, ◌==◌, if◌then◌else◌,
}
use bflib.Run.{Run, ok, Returns, ◌>>=◌}
use bflib.Netint.{int_max_octet}
use bflib.Netint.Tests.{little}
use bflib.Octstr.{
  Octstr, spliced, octstr_create, octstr_append_str, octstr_fill, octstr_str_replace,
  octstr_str_append, octstr_grow, copy_in, poke, octstr_delete,
}
use bflib.Octstr.Contents.{contents, Holds}
use bflib.Octstr.Edit.{octstr_delete_lem}
use bflib.Octstr.Convert.RoundTrip.{
  uintvar_read_back, ntohl_read_back, octstr_unpack_uintvar-append, octstr_unpack_ntohl-append,
}
use bflib.Octstr.Compare.{octstr_cmp, lexical, octstr_cmp-lexical}
use bflib.Octstr.Strip.{octstr_strip}
use bflib.Octstr.Strip.Trim.{trim_left, trim_right, blank, octstr_strip-trim}

abbrev memory : ℕ → ℕ
memory i = 7

abbrev string_of : List ℕ → Octstr
string_of xs = record { bytes = spliced memory 0 (xs ++ 0 ∷ []); len = length xs; size = 1024 }

-- " ab\n"
abbrev sample : Octstr
sample = string_of (32 ∷ 97 ∷ 98 ∷ 10 ∷ [])

abbrev contains : List ℕ → ℕ → Bool
contains [] c = c == 0
contains (x ∷ xs) c = (c == x) || contains xs c

abbrev octets : Run Octstr → Run (List ℕ)
octets run = run >>= λ s. ok (contents s)

appended :
    octets (octstr_create memory (1 ∷ 2 ∷ []) >>= λ s. octstr_append_str s (3 ∷ []))
    ≡ ok (1 ∷ 2 ∷ 3 ∷ [])
unfolding octstr_create octstr_append_str octstr_str_replace octstr_grow copy_in poke
    octstr_str_append
appended = refl

-- a string has no terminating 0 before its first octet is written
not_ended : octstr_create memory [] >>= (λ s. ok (s.bytes 0)) ≡ ok 7
unfolding octstr_create octstr_str_replace octstr_grow
not_ended = refl

-- the 0 behind the filled range takes the place of an octet of the string
filled : octets (octstr_fill sample 9 0 2) ≡ ok (9 ∷ 9 ∷ 0 ∷ 10 ∷ [])
unfolding octstr_fill octstr_grow copy_in poke
filled = refl

octstr_delete_lem_example :
    Returns
      (Holds (take 1 (contents sample) ++ drop (1 + 2) (contents sample)))
      (octstr_delete memory sample 1 2)
octstr_delete_lem_example =
    octstr_delete_lem memory sample 1 2 (omega arith) (omega arith) (omega arith)

octstr_strip-trim_example :
    Returns
      (Holds (trim_right (blank contains) (trim_left (blank contains) (contents sample))))
      (octstr_strip contains memory sample)
octstr_strip-trim_example = octstr_strip-trim contains memory sample (omega arith) (omega arith)

octstr_cmp-lexical_example :
    octstr_cmp lexical sample (string_of (32 ∷ []))
    ≡ ok (lexical (contents sample) (contents (string_of (32 ∷ []))))
octstr_cmp-lexical_example =
    octstr_cmp-lexical lexical sample (string_of (32 ∷ [])) (omega arith) (omega arith)
      (λ xs ys e. refl)

octstr_unpack_uintvar-append_example :
    Returns
      (λ (len, found). (len ≤ 5) × (found ≡ some (4 + len, 300 % 2 ^ 35)))
      (uintvar_read_back sample 300 (1 ∷ []))
octstr_unpack_uintvar-append_example =
    octstr_unpack_uintvar-append sample 300 (1 ∷ []) (omega arith) (omega arith)

octstr_unpack_ntohl-append_example :
    Returns
      (λ (len, found).
        (int_max_octet 300 ≡ some len)
        × (found ≡ (if ltb 0 (length {A = ℕ} []) then some (4 + len, 300) else none)))
      (ntohl_read_back little sample 300 [])
octstr_unpack_ntohl-append_example =
    octstr_unpack_ntohl-append little sample 300 [] (omega arith) (omega arith) (omega arith)
