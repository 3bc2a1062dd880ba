-- ===== src/Uintvar/RoundTrip.antt =====
-- uintvar_unpack undoes uintvar_pack (uintvar.c).
use native.Mathlib.Nat.{pow-suc, zero-mod, mod-lt, pow-le-pow_right, one-le-pow, zero-add, add-zero}
use mathlib.Core.Path.{ap₂}
use bflib.Base.{
  ℕ, zero, suc, ◌+◌, ◌-◌, ◌*◌, ◌/◌, ◌%◌, ◌^◌, ◌≤◌, ◌<◌, ◌≡◌, refl, sym, ap, ◌∙◌, bit_and, bit_or,
  List, [], ◌∷◌, ◌++◌, some, arith, length, ltb, inl, inr, Bool-cases,
}
use bflib.Base.Bits.{bit_or-shift, bit_and-mask, bit_and-bit, mod-mul}
use bflib.Uintvar.{pack_loop, uintvar_pack, unpack_loop, uintvar_unpack}

-- the byte that the loop writes for a value
continued : (v : ℕ) → bit_or 0x80 (bit_and v 0x7f) ≡ 128 + v % 128
continued v =
    omega
      (arith, bit_and-mask 7 v, bit_or-shift 7 1 (bit_and v 0x7f) (omega (arith, bit_and-mask 7 v)))

-- what one round of the decoder makes of a byte
shifted :
    (val b : ℕ)
    → val < 2 ^ 57
    → bit_or (val * 2 ^ 7 % 2 ^ 64) (bit_and b 0x7f) ≡ val * 128 + b % 128
shifted val b h =
    let fits : val * 2 ^ 7 % 2 ^ 64 ≡ val * 2 ^ 7 = omega arith in
    rw (fits, bit_and-mask 7 b) (bit_or-shift 7 val (b % 2 ^ 7) (omega arith))

-- a round on a byte with its top bit set goes on, and one on another byte ends
round_continued :
    (rounds : ℕ) (v : ℕ) (bytes : List ℕ) (i val : ℕ)
    → val < 2 ^ 57
    → unpack_loop (suc rounds) ((128 + v % 128) ∷ bytes) i val
      ≡ unpack_loop rounds bytes (i + 1) (val * 128 + v % 128)
unfolding unpack_loop
round_continued rounds v bytes i val h =
    let group : val * 128 + (128 + v % 128) % 128 ≡ val * 128 + v % 128 = omega arith in
    rw (shifted val (128 + v % 128) h, group) (ground (arith, bit_and-bit 7 (128 + v % 128)))

round_written :
    (rounds : ℕ) (v : ℕ) (bytes : List ℕ) (i val : ℕ)
    → val < 2 ^ 57
    → unpack_loop (suc rounds) (bit_or 0x80 (bit_and v 0x7f) ∷ bytes) i val
      ≡ unpack_loop rounds bytes (i + 1) (val * 128 + v % 128)
round_written rounds v bytes i val h = rw (continued v) (round_continued rounds v bytes i val h)

round_last :
    (rounds : ℕ) (v : ℕ) (bytes : List ℕ) (i val : ℕ)
    → val < 2 ^ 57
    → unpack_loop (suc rounds) ((v % 128) ∷ bytes) i val ≡ some (val * 128 + v % 128, i + 1)
unfolding unpack_loop
round_last rounds v bytes i val h =
    let group : val * 128 + v % 128 % 128 ≡ val * 128 + v % 128 = omega arith in
    rw (shifted val (v % 128) h, group) (ground (arith, bit_and-bit 7 (v % 128)))

-- The decoder reads the `m` bytes that the loop wrote for `value` as its low `room` groups.
record Written (room value : ℕ) (tail : List ℕ) : Type 0 where
  m : ℕ
  within : m ≤ room
  count : length (pack_loop room value tail) ≡ m + length tail
  read :
      (r i : ℕ) (rest : List ℕ)
      → unpack_loop (m + r) (pack_loop room value tail ++ rest) i 0
        ≡ unpack_loop r (tail ++ rest) (i + m) (value % 128 ^ room)

-- the low `room + 1` groups of a value are the low `room` groups of the rest, and the last one
groups_suc : (room v : ℕ) → v / 128 % 128 ^ room * 128 + v % 128 ≡ v % 128 ^ suc room
groups_suc room v =
    sym (mod-mul v (128 ^ room) 128 (one-le-pow room 128 (omega arith)) (omega arith))
    ∙ ap (λ (t : ℕ). v % t) (sym (pow-suc 128 room))

groups_lt : (room v : ℕ) → room ≤ 4 → v % 128 ^ room < 2 ^ 57
groups_lt room v h = omega (
  arith,
  mod-lt v (one-le-pow room 128 (omega arith)),
  pow-le-pow_right {n = 128} (omega arith) h,
)

written : (room value : ℕ) (tail : List ℕ) → room ≤ 4 → Written room value tail
unfolding pack_loop
written zero value tail h = record {
  m = 0;
  within = omega arith;
  count = omega arith;
  read = λ r i rest. rw (zero-add, add-zero) (ap (unpack_loop r (tail ++ rest) i) (omega arith));
}
written (suc room) value tail h = elim (Bool-cases (ltb 0 value)) [
  | inr none_left ↦
      let e : value ≡ 0 = ground arith in
      rw e (record {
        m = 0;
        within = omega arith;
        count = omega arith;
        read = λ r i rest. rw (zero-add, add-zero, zero-mod) refl;
      })
  | inl more ↦
      let w = written room (value / 128) (bit_or 0x80 (bit_and value 0x7f) ∷ tail) (omega arith) in
      record {
        m = suc w.m;
        within = omega (arith, w.within);
        count = rw more (omega (arith, w.count));
        read = λ r i rest.
            let shift : suc w.m + r ≡ w.m + suc r = omega arith in
            rw (more, shift)
              (w.read (suc r) i rest
                ∙ round_written r value (tail ++ rest) (i + w.m) (value / 128 % 128 ^ room)
                    (groups_lt room (value / 128) (omega arith))
                ∙ ap₂ (unpack_loop r (tail ++ rest)) (omega arith) (groups_suc room value));
      }
]

-- Packing into a buffer of five bytes or more succeeds, writes at most five, and unpacking what
-- was written, whatever follows it, gives the value modulo 2 ^ 35 and the count of bytes.
pub uintvar_unpack-pack :
    (len value : ℕ) (rest : List ℕ)
    → 5 ≤ len
    → (pack : List ℕ) × (uintvar_pack len value ≡ some pack)
      × (length pack ≤ 5)
      × (uintvar_unpack (pack ++ rest) ≡ some (value % 2 ^ 35, length pack))
unfolding uintvar_pack uintvar_unpack
uintvar_unpack-pack len value rest h =
    let w = written 4 (value / 128) (value % 128 ∷ []) (omega arith) in
    let pack = pack_loop 4 (value / 128) (value % 128 ∷ []) in
    let total : w.m + suc (4 - w.m) ≡ 5 = omega (arith, w.within) in
    let whole : value / 128 % 128 ^ 4 * 128 + value % 128 ≡ value % 2 ^ 35 = groups_suc 4 value in
    (
      pack,
      rw (bit_and-mask 7 value) (ground (arith, w.count, w.within)),
      omega (arith, w.count, w.within),
      rw (← total) (
          w.read (suc (4 - w.m)) 0 rest
          ∙ round_last (4 - w.m) value rest (0 + w.m) (value / 128 % 128 ^ 4)
              (groups_lt 4 (value / 128) (omega arith))
          ∙ ap some (ap₂ (λ (a b : ℕ). (a, b)) whole (omega (arith, w.count)))),
    )

-- So every value below 2 ^ 35 comes back as it was.
pub uintvar_round_trip :
    (value : ℕ) (rest : List ℕ)
    → value < 2 ^ 35
    → (pack : List ℕ) × (uintvar_pack 5 value ≡ some pack)
      × (uintvar_unpack (pack ++ rest) ≡ some (value, length pack))
uintvar_round_trip value rest h =
    let (pack, packed, _, unpacked) = uintvar_unpack-pack 5 value rest (omega arith) in
    let same : value % 2 ^ 35 ≡ value = omega arith in (pack, packed, rw same at unpacked)

-- there is a byte to read
pub uintvar_unpack-length :
    (r : ℕ × ℕ) (bytes : List ℕ) → uintvar_unpack bytes ≡ some r → 0 < length bytes
unfolding uintvar_unpack unpack_loop
uintvar_unpack-length r [] e = absurd (ground (arith, e))
uintvar_unpack-length r (b ∷ bytes) e = omega arith
