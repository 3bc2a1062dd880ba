-- ===== src/Netint.antt =====
-- netint.c: integers in network byte order. The machine's object representation and the calls of
-- arpa/inet.h are a parameter, with what their documents say of them.
pub mod Octets
pub mod Tests
use bflib.Base.{
  ℕ, zero, suc, ◌+◌, ◌-◌, ◌*◌, ◌/◌, ◌%◌, ◌^◌, ◌<◌, ◌≡◌, Bool, ◌&&◌, Option, none, some, List, [],
  ◌∷◌, ◌++◌, length, take, drop, ltb, leb, ◌==◌, if◌then◌else◌,
}
use bflib.Run.{Run, ok, fault, ◌>>=◌}

pub record Host : Type 0 where
  -- the bytes in memory of an unsigned integer of `width` bytes, and the 32-bit integer of four
  pub store : (width : ℕ) → ℕ → List ℕ
  pub fetch32 : List ℕ → ℕ
  pub htonl : ℕ → ℕ
  pub ntohl : ℕ → ℕ
  -- zero is stored as zero bytes
  pub store-zero : store 4 0 ≡ 0 ∷ 0 ∷ 0 ∷ 0 ∷ []
  -- htonl gives a word whose bytes in memory are in network order, and ntohl turns it back
  pub store-htonl :
      (v : ℕ)
      → v < 2 ^ 32
      → store 4 (htonl v) ≡ (v / 2 ^ 24) ∷ (v / 2 ^ 16 % 256) ∷ (v / 2 ^ 8 % 256) ∷ (v % 256) ∷ []
  pub ntohl-fetch32 :
      (a b c d : ℕ)
      → a < 256
      → b < 256
      → c < 256
      → d < 256
      → ntohl (fetch32 (a ∷ b ∷ c ∷ d ∷ [])) ≡ a * 2 ^ 24 + b * 2 ^ 16 + c * 2 ^ 8 + d

abbrev pub max_octet_1 : ℕ
max_octet_1 = 0xff

abbrev pub max_octet_2 : ℕ
max_octet_2 = 0xffff

abbrev pub max_octet_3 : ℕ
max_octet_3 = 0xffffff

abbrev pub max_octet_4 : ℕ
max_octet_4 = 0xffffffff

-- `none` is -1
pub int_max_octet : ℕ → Option ℕ
int_max_octet value =
    if leb value max_octet_1
    then some 1
    else if leb value max_octet_2
    then some 2
    else if leb value max_octet_3
    then some 3
    else if leb value max_octet_4
    then some 4
    else none

-- `memcpy(_, src, n)`: the first `n` bytes, which `src` must have
pub copied : List ℕ → ℕ → Run (List ℕ)
copied src n = if ltb (length src) n then fault else ok (take n src)

pub data Byteorder : Type 0 where
  bobig bolittle boerror : Byteorder

module _ (host : Host) where
  open host use {store, fetch32, htonl, ntohl}

  -- `memcpy(p + sizeof(uint32_t) - size, data, size)` writes the end of a zero word
  pub data_ntohl : List ℕ → ℕ → Run ℕ
  unfolding copied
  data_ntohl bytes size =
      let size = if ltb 4 size then 4 else size in
      copied bytes size >>= λ low. ok (ntohl (fetch32 (take (4 - size) (store 4 0) ++ low)))

  htonl_bytes : Option ℕ → ℕ → Run (List ℕ)
  htonl_bytes none val = fault
  htonl_bytes (some len) val = copied (drop (4 - len) (store 4 (htonl val))) len

  -- the bytes written to `buf`; the call returns their number
  pub data_htonl : ℕ → Run (List ℕ)
  unfolding int_max_octet htonl_bytes copied
  data_htonl val = htonl_bytes (int_max_octet val) val

  order_of : List ℕ → Byteorder
  order_of (a ∷ b ∷ []) =
      if (a == 1) && (b == 2)
      then Byteorder.bobig
      else if (a == 2) && (b == 1)
      then Byteorder.bolittle
      else Byteorder.boerror
  order_of _ = Byteorder.boerror

  pub byteorder : Byteorder
  unfolding order_of
  byteorder = order_of (store 2 0x0102)
