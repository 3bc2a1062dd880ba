-- ===== src/Netint/Tests.antt =====
-- The hypotheses on the machine hold of a little-endian and of a big-endian one; runs of netint.c.
use bflib.Base.{
  ℕ, ◌+◌, ◌*◌, ◌/◌, ◌%◌, ◌^◌, ◌<◌, ◌≡◌, refl, List, [], ◌∷◌, ◌++◌, arith, some, length, zero, suc,
}
use bflib.Run.{ok, Returns}
use bflib.Netint.{Host, Byteorder, byteorder, data_ntohl, data_htonl, int_max_octet}
use bflib.Netint.Octets.{data_ntohl-htonl}

-- the bytes of a number, the lowest first
abbrev digits : ℕ → ℕ → List ℕ
digits zero v = []
digits (suc n) v = (v % 256) ∷ digits n (v / 256)

abbrev word_of : List ℕ → ℕ
word_of [] = 0
word_of (b ∷ bs) = b + 256 * word_of bs

abbrev swap32 : ℕ → ℕ
swap32 v = v % 256 * 2 ^ 24 + v / 2 ^ 8 % 256 * 2 ^ 16 + v / 2 ^ 16 % 256 * 2 ^ 8 + v / 2 ^ 24 % 256

pub swap32-digits :
    (v : ℕ)
    → v < 2 ^ 32
    → digits 4 (swap32 v) ≡ (v / 2 ^ 24) ∷ (v / 2 ^ 16 % 256) ∷ (v / 2 ^ 8 % 256) ∷ (v % 256) ∷ []
swap32-digits v h = ground arith

pub swap32-word_of :
    (a b c d : ℕ)
    → a < 256
    → b < 256
    → c < 256
    → d < 256
    → swap32 (word_of (a ∷ b ∷ c ∷ d ∷ [])) ≡ a * 2 ^ 24 + b * 2 ^ 16 + c * 2 ^ 8 + d
swap32-word_of a b c d p q r s = omega arith

abbrev pub little : Host
little = record {
  store = digits;
  fetch32 = word_of;
  htonl = swap32;
  ntohl = swap32;
  store-zero = refl;
  store-htonl = swap32-digits;
  ntohl-fetch32 = swap32-word_of;
}

-- the bytes of a number, the highest first
abbrev digits_down : ℕ → ℕ → List ℕ
digits_down zero v = []
digits_down (suc n) v = (v / 256 ^ n % 256) ∷ digits_down n v

abbrev word_down : ℕ → List ℕ → ℕ
word_down acc [] = acc
word_down acc (b ∷ bs) = word_down (acc * 256 + b) bs

digits_down-four :
    (v : ℕ)
    → v < 2 ^ 32
    → digits_down 4 v ≡ (v / 2 ^ 24) ∷ (v / 2 ^ 16 % 256) ∷ (v / 2 ^ 8 % 256) ∷ (v % 256) ∷ []
digits_down-four v h = ground arith

word_down-four :
    (a b c d : ℕ)
    → a < 256
    → b < 256
    → c < 256
    → d < 256
    → word_down 0 (a ∷ b ∷ c ∷ d ∷ []) ≡ a * 2 ^ 24 + b * 2 ^ 16 + c * 2 ^ 8 + d
word_down-four a b c d p q r s = omega arith

abbrev big : Host
big = record {
  store = digits_down;
  fetch32 = word_down 0;
  htonl = λ v. v;
  ntohl = λ v. v;
  store-zero = refl;
  store-htonl = digits_down-four;
  ntohl-fetch32 = word_down-four;
}

orders : (byteorder little ≡ Byteorder.bolittle) × (byteorder big ≡ Byteorder.bobig)
unfolding byteorder
orders = (refl, refl)

three_octets : data_htonl little 0x010203 ≡ ok (1 ∷ 2 ∷ 3 ∷ [])
unfolding data_htonl
three_octets = refl

data_ntohl-htonl_example :
    Returns
      (λ bytes.
        (int_max_octet 70000 ≡ some (length bytes))
        × (data_ntohl little (bytes ++ 9 ∷ []) (length bytes) ≡ ok 70000))
      (data_htonl little 70000)
data_ntohl-htonl_example = data_ntohl-htonl little 70000 (9 ∷ []) (omega arith)
