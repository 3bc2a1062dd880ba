-- ===== src/Octstr/Convert.antt =====
-- octstr.c: integers written behind a string and read from it, by uintvar.c and netint.c.
pub mod RoundTrip
pub mod Hex
use bflib.Base.{
  ℕ, zero, suc, ◌+◌, ◌-◌, ◌%◌, ◌^◌, Bool, Option, none, some, List, length, leb, if◌then◌else◌,
}
use bflib.Run.{Run, ok, fault, ◌>>=◌}
use bflib.Uintvar.{uintvar32_len, uintvar_pack, uintvar_unpack}
use bflib.Netint.{Host, data_htonl, data_ntohl}
use bflib.Octstr.{Octstr, read, octstr_str_append, octstr_append_oct}

-- a length of -1 is one that no block has room for
append_pack : Octstr → Option (List ℕ) → Run (ℕ × Octstr)
append_pack s none = fault
append_pack s (some buf) = octstr_str_append s buf >>= λ s. ok (length buf, s)

-- the length beside the string
pub octstr_append_uintvar : Octstr → ℕ → Run (ℕ × Octstr)
unfolding append_pack
octstr_append_uintvar s value = append_pack s (uintvar_pack uintvar32_len value)

unpacked : ℕ → Option (ℕ × ℕ) → Option (ℕ × ℕ)
unpacked pos none = none
unpacked pos (some (value, len)) = some (pos + len, value)

-- the position behind the integer, and the integer; `none` is -1
pub octstr_unpack_uintvar : Octstr → ℕ → Run (Option (ℕ × ℕ))
unfolding unpacked
octstr_unpack_uintvar s pos =
    if leb s.len pos
    then ok none
    else (read s pos (s.len - pos) >>= λ bytes. ok (unpacked pos (uintvar_unpack bytes)))

-- `while( len++ < 4 )`, with 4 - len rounds left, and the `len` after the loop
pub pad_loop : (rounds : ℕ) → ℕ → Octstr → Run (ℕ × Octstr)
pad_loop zero len s = ok (len + 1, s)
pad_loop (suc rounds) len s = octstr_append_oct s 0 >>= λ s. pad_loop rounds (len + 1) s

module _ (host : Host) where
  pub octstr_append_htonl : Octstr → ℕ → (least : Bool) → Run (ℕ × Octstr)
  unfolding pad_loop
  octstr_append_htonl s value least = do
    buf ← data_htonl host (value % 2 ^ 32)
    let n = length buf
    (len, s) ← (if least then ok (n, s) else pad_loop (4 - n) n s)
    s ← octstr_str_append s buf
    ok (len, s)

  -- data_ntohl reads no byte behind the string
  pub octstr_unpack_ntohl : Octstr → ℕ → ℕ → Run (Option (ℕ × ℕ))
  octstr_unpack_ntohl s pos len = if leb s.len (pos + len) then ok none else (do
    bytes ← read s pos (s.len - pos)
    value ← data_ntohl host bytes len
    ok (some (pos + len, value)))
