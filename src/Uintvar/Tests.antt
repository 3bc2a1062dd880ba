-- ===== src/Uintvar/Tests.antt =====
-- Runs of uintvar.c, and its theorems at concrete numbers.
use bflib.Base.{ℕ, ◌+◌, ◌^◌, ◌≤◌, ◌≡◌, refl, List, [], ◌∷◌, ◌++◌, some, none, length, arith}
use bflib.Uintvar.RoundTrip.{uintvar_unpack-pack, uintvar_round_trip}
use bflib.Uintvar.{uintvar_pack, uintvar_unpack, pack_loop, unpack_loop}

packed : uintvar_pack 5 300 ≡ some (0x82 ∷ 0x2c ∷ [])
unfolding uintvar_pack pack_loop
packed = refl

-- the five groups of a number above 2 ^ 35 lose its highest bit
cut_off : uintvar_pack 5 (2 ^ 35 + 1) ≡ some (0x80 ∷ 0x80 ∷ 0x80 ∷ 0x80 ∷ 0x01 ∷ [])
unfolding uintvar_pack pack_loop
cut_off = refl

too_long : uintvar_unpack (0x81 ∷ 0x81 ∷ 0x81 ∷ 0x81 ∷ 0x81 ∷ 0x01 ∷ []) ≡ none
unfolding uintvar_unpack unpack_loop
too_long = refl

uintvar_unpack-pack_example :
    (pack : List ℕ) × (uintvar_pack 5 300 ≡ some pack)
    × (length pack ≤ 5)
    × (uintvar_unpack (pack ++ 7 ∷ []) ≡ some (300, length pack))
uintvar_unpack-pack_example = uintvar_unpack-pack 5 300 (7 ∷ []) (omega arith)

uintvar_round_trip_example :
    (pack : List ℕ) × (uintvar_pack 5 300 ≡ some pack)
    × (uintvar_unpack (pack ++ 7 ∷ []) ≡ some (300, length pack))
uintvar_round_trip_example = uintvar_round_trip 300 (7 ∷ []) (omega arith)
