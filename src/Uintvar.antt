-- ===== src/Uintvar.antt =====
-- uintvar.c: unsigned integers in groups of seven bits, the highest group first; every byte but
-- the last has its top bit set. `unsigned long` has 64 bits. A buffer is a list of bytes.
pub mod RoundTrip
mod Tests
use bflib.Base.{
  ℕ, zero, suc, ◌+◌, ◌-◌, ◌*◌, ◌/◌, ◌%◌, ◌^◌, bit_and, bit_or, Bool, ◌&&◌, Option, none, some, List,
  [], ◌∷◌, length, ltb, ◌==◌, if◌then◌else◌,
}

abbrev pub uintvar32_len : ℕ
uintvar32_len = 5

-- `for( i = UINTVAR32_LEN-2 ; value > 0 && i >= 0 ; i-- )`: `room` is i + 1, and `pack` holds the
-- bytes from i + 1 on. The call ends with the bytes from `pos` on.
pub pack_loop : (room : ℕ) → ℕ → List ℕ → List ℕ
pack_loop zero value pack = pack
pack_loop (suc i) value pack =
    let next = pack_loop i (value / 2 ^ 7) (bit_or 0x80 (bit_and value 0x7f) ∷ pack) in
    if ltb 0 value then next else pack

-- the bytes copied to `buf`, whose room is `len`; `none` is -1
pub uintvar_pack : (len : ℕ) → ℕ → Option (List ℕ)
uintvar_pack len value =
    let pack = pack_loop (uintvar32_len - 1) (value / 2 ^ 7) (bit_and value 0x7f ∷ []) in
    if ltb len (length pack) then none else some pack

-- the value and the count of bytes read; `none` is -1. `rounds` is UINTVAR32_LEN - i, and the list
-- holds the bytes from i on.
pub unpack_loop : (rounds : ℕ) → List ℕ → ℕ → ℕ → Option (ℕ × ℕ)
unpack_loop zero bytes i val = none
unpack_loop (suc rounds) [] i val = none
unpack_loop (suc rounds) (b ∷ bytes) i val =
    let val = bit_or (val * 2 ^ 7 % 2 ^ 64) (bit_and b 0x7f) in
    let next = unpack_loop rounds bytes (i + 1) val in
    if bit_and b 0x80 == 0 then some (val, i + 1) else next

pub uintvar_unpack : List ℕ → Option (ℕ × ℕ)
uintvar_unpack bytes = unpack_loop uintvar32_len bytes 0 0
