-- ===== src/Octstr.antt =====
-- octstr.c: strings of octets in a block that grows. `bytes` is the block, of `size` bytes, with
-- anything past its end; no block is a block of none. A buffer of a caller is the list of its bytes,
-- and a C string the list of those before its 0. Strings that are passed together are different
-- ones, positions and counts are not negative, and a number that does not fit an `int` is a fault.
pub mod Contents
pub mod Edit
pub mod Convert
pub mod Compare
pub mod Strip
pub mod Search
mod Tests
use bflib.Base.{
  ℕ, zero, suc, ◌+◌, ◌-◌, ◌%◌, ◌^◌, Bool, ◌&&◌, Option, none, some, List, [], ◌∷◌, length, leb, ltb,
  ◌==◌, if◌then◌else◌,
}
use bflib.Run.{Run, ok, fault, ◌>>=◌}

pub record Octstr : Type 0 where
  pub bytes : ℕ → ℕ
  pub len : ℕ
  pub size : ℕ

-- an `int`: the sum of two of them, or a `size_t` assigned to one
abbrev pub to_int : ℕ → Run ℕ
to_int n = if ltb n (2 ^ 31) then ok n else fault

-- the `n` bytes from `pos` on
abbrev pub slice : (ℕ → ℕ) → ℕ → ℕ → List ℕ
slice bytes pos zero = []
slice bytes pos (suc n) = bytes pos ∷ slice bytes (pos + 1) n

-- the same, read from the block of a string
pub read : Octstr → ℕ → ℕ → Run (List ℕ)
read s pos n = if leb (pos + n) s.size then ok (slice s.bytes pos n) else fault

-- `s->s[i] = b`
pub poke : Octstr → ℕ → ℕ → Run Octstr
poke s i b =
    if ltb i s.size then ok (record s { bytes = λ j. if j == i then b else s.bytes j }) else fault

-- the memory with the bytes of a list from `pos` on
abbrev pub spliced : (ℕ → ℕ) → ℕ → List ℕ → ℕ → ℕ
spliced bytes pos [] i = bytes i
spliced bytes pos (b ∷ bs) i = if i == pos then b else spliced bytes (pos + 1) bs i

-- `memcpy(s->s + pos, src, n)`, with the `n` bytes of `src`
pub copy_in : Octstr → ℕ → List ℕ → Run Octstr
copy_in s pos src =
    if leb (pos + length src) s.size
    then ok (record s { bytes = spliced s.bytes pos src })
    else fault

pub octstr_calc_size : ℕ → ℕ
octstr_calc_size len = len + 1024 - len % 1024

pub octstr_grow : Octstr → ℕ → Run Octstr
unfolding octstr_calc_size
octstr_grow s len = to_int (octstr_calc_size (len + 1)) >>= λ size.
    ok (if ltb s.size size then record s { size = size } else s)

-- the blocks of realloc and malloc have anything behind the old bytes
pub octstr_resize : Octstr → ℕ → Run Octstr
octstr_resize s len =
    let size = octstr_calc_size (len + 1) in
    let cut = record s { size = size; len = if ltb size s.len then size else s.len } in
    if size == 0 then ok cut else poke cut (size - 1) 0

pub octstr_str_replace : Octstr → List ℕ → Run Octstr
octstr_str_replace dst src = octstr_grow dst (length src) >>= λ dst.
    if ltb 0 (length src)
    then (do
      dst ← copy_in dst 0 src
      dst ← poke dst (length src) 0
      ok (record dst { len = length src }))
    else ok (record dst { len = 0 })

-- `malloc` gives no bytes that are known
pub octstr_create : (memory : ℕ → ℕ) → List ℕ → Run Octstr
octstr_create memory buf = octstr_str_replace (record { bytes = memory; len = 0; size = 0 }) buf

pub octstr_create_from_str : (memory : ℕ → ℕ) → List ℕ → Run Octstr
octstr_create_from_str memory str = octstr_create memory str

pub octstr_len : Octstr → ℕ
octstr_len s = s.len

pub octstr_erase : Octstr → Run Octstr
octstr_erase s = octstr_str_replace s []

pub octstr_copy : (memory : ℕ → ℕ) → Octstr → Run Octstr
octstr_copy memory s = read s 0 s.len >>= λ buf. octstr_create memory buf

pub octstr_replace : Octstr → Octstr → Run Octstr
octstr_replace dst src = read src 0 src.len >>= λ buf. octstr_str_replace dst buf

pub octstr_str_append : Octstr → List ℕ → Run Octstr
octstr_str_append dst src =
    if ltb 0 (length src)
    then (do
      new_len ← to_int (dst.len + length src)
      grown ← octstr_grow dst new_len
      copied ← copy_in grown grown.len src
      ended ← poke copied new_len 0
      ok (record ended { len = new_len }))
    else ok dst

pub octstr_append : Octstr → Octstr → Run Octstr
octstr_append dst src = read src 0 src.len >>= λ buf. octstr_str_append dst buf

pub octstr_append_str : Octstr → List ℕ → Run Octstr
octstr_append_str dst str = octstr_str_append dst str

-- `oct` is cut to a byte
pub octstr_append_oct : Octstr → ℕ → Run Octstr
octstr_append_oct s oct = do
  grown ← octstr_grow s (s.len + 1)
  s ← poke grown grown.len (oct % 256)
  poke (record s { len = s.len + 1 }) (s.len + 1) 0

-- `n` bytes `c`
abbrev pub repeated : ℕ → ℕ → List ℕ
repeated c zero = []
repeated c (suc n) = c ∷ repeated c n

pub octstr_fill : Octstr → ℕ → ℕ → ℕ → Run Octstr
octstr_fill s c pos n = to_int (pos + n) >>= λ len.
    if ltb 0 len
    then (do
      grown ← octstr_grow s len
      s ← copy_in grown pos (repeated (c % 256) n)
      s ← poke s len 0
      ok (record s { len = if ltb s.len len then len else s.len }))
    else ok s

pub octstr_substr : (memory : ℕ → ℕ) → Octstr → ℕ → ℕ → Run Octstr
octstr_substr memory s pos n = if leb s.len pos then octstr_create memory [] else (do
  last ← to_int (pos + n)
  buf ← read s pos (if leb last s.len then n else s.len - pos)
  octstr_create memory buf)

-- `none` is (unsigned)-1
pub octstr_get_oct : Octstr → ℕ → Run (Option ℕ)
octstr_get_oct s pos =
    if leb s.len pos then ok none else if ltb pos s.size then ok (some (s.bytes pos)) else fault

pub octstr_replace_substr : Octstr → Octstr → ℕ → ℕ → Run (ℕ × Octstr)
octstr_replace_substr dst src pos n =
    if leb src.len pos then (octstr_str_replace dst [] >>= λ dst. ok (0, dst)) else (do
      last ← to_int (pos + n)
      let count = if leb last src.len then n else src.len - pos
      buf ← read src pos count
      dst ← octstr_str_replace dst buf
      ok (count, dst))

-- the count of the second call is of no use where `pos + n` is past the end
pub octstr_delete : (memory : ℕ → ℕ) → Octstr → ℕ → ℕ → Run Octstr
octstr_delete memory s pos n = do
  substr1 ← octstr_substr memory s 0 pos
  last ← to_int (pos + n)
  substr2 ← octstr_substr memory s last (s.len - last)
  s ← octstr_replace s substr1
  octstr_append s substr2
