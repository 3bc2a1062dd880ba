-- ===== src/Netint/Octets.antt =====
-- data_htonl, data_ntohl and int_max_octet (netint.c).
use bflib.Base.{
  ℕ, zero, suc, ◌+◌, ◌-◌, ◌*◌, ◌^◌, ◌≤◌, ◌<◌, ◌≡◌, ◌↔◌, refl, ap, ◌∙◌, List, [], ◌∷◌, ◌++◌, none,
  some, length, take, All, arith, take-append, length-append, le→ltb, ltb, if◌then◌else◌, inl, inr,
  sym, Option-cases,
}
use bflib.Run.{ok, Returns, returns, Returns-map}
use bflib.Netint.{Host, int_max_octet, copied, data_ntohl, data_htonl, htonl_bytes}

-- the number that bytes stand for in network order
pub big_endian : ℕ → List ℕ → ℕ
big_endian acc [] = acc
big_endian acc (b ∷ bs) = big_endian (acc * 256 + b) bs

-- int_max_octet gives the least number of octets that hold a value below 2 ^ 32, and -1 for others
pub int_max_octet_lem :
    (value k : ℕ)
    → (int_max_octet value ≡ some k)
      ↔ ((1 ≤ k) × (k ≤ 4) × (value < 256 ^ k) × (1 < k → 256 ^ (k - 1) ≤ value))
unfolding int_max_octet
int_max_octet_lem value zero = ground arith
int_max_octet_lem value (suc zero) = ground arith
int_max_octet_lem value (suc (suc zero)) = ground arith
int_max_octet_lem value (suc (suc (suc zero))) = ground arith
int_max_octet_lem value (suc (suc (suc (suc zero)))) = ground arith
int_max_octet_lem value (suc (suc (suc (suc (suc k))))) =
    (λ e. absurd (ground arith), λ h. absurd (omega arith))

pub int_max_octet-none : (value : ℕ) → (int_max_octet value ≡ none) ↔ (2 ^ 32 ≤ value)
unfolding int_max_octet
int_max_octet-none value = ground arith

copied-append : (low rest : List ℕ) → copied (low ++ rest) (length low) ≡ ok low
unfolding copied
copied-append low rest = rw (
  take-append low rest,
  le→ltb (length (low ++ rest)) (length low) (omega (arith, length-append low rest)),
)

module _ (host : Host) where
  open host use {store, fetch32, htonl, ntohl, store-zero, ntohl-fetch32}

  -- the word that data_ntohl puts together from four bytes at most
  word :
      (low : List ℕ)
      → length low ≤ 4
      → All (λ b. b < 256) low
      → ntohl (fetch32 (take (4 - length low) (store 4 0) ++ low)) ≡ big_endian 0 low
  unfolding big_endian
  word [] h s =
      rw (store-zero, ntohl-fetch32 0 0 0 0 (omega arith) (omega arith) (omega arith) (omega arith))
        (omega arith)
  word (d ∷ []) h s =
      rw (store-zero, ntohl-fetch32 0 0 0 d (omega arith) (omega arith) (omega arith) (omega arith))
        (omega arith)
  word (c ∷ d ∷ []) h s =
      rw (store-zero, ntohl-fetch32 0 0 c d (omega arith) (omega arith) (omega arith) (omega arith))
        (omega arith)
  word (b ∷ c ∷ d ∷ []) h s =
      rw (store-zero, ntohl-fetch32 0 b c d (omega arith) (omega arith) (omega arith) (omega arith))
        (omega arith)
  word (a ∷ b ∷ c ∷ d ∷ []) h s =
      rw (ntohl-fetch32 a b c d (omega arith) (omega arith) (omega arith) (omega arith))
        (omega arith)
  word (a ∷ b ∷ c ∷ d ∷ e ∷ low) h s = absurd (omega arith)

  -- data_ntohl reads `size` bytes, or the first four if `size` is greater, as a number in network
  -- order
  pub data_ntohl-big_endian :
      (low rest : List ℕ) (size : ℕ)
      → All (λ b. b < 256) low
      → length low ≡ (if ltb 4 size then 4 else size)
      → data_ntohl host (low ++ rest) size ≡ ok (big_endian 0 low)
  unfolding data_ntohl
  data_ntohl-big_endian low rest size small e =
      rw (← e, copied-append low rest) (ap ok (word low (ground arith) small))

  data_htonl_lem : (val : ℕ) → data_htonl host val ≡ htonl_bytes host (int_max_octet val) val
  unfolding data_htonl
  data_htonl_lem val = refl

  -- the last `k` of the four bytes are the number, if it fits them
  sent :
      (val k : ℕ)
      → 1 ≤ k
      → k ≤ 4
      → val < 256 ^ k
      → Returns
          (λ bytes. (length bytes ≡ k) × All (λ b. b < 256) bytes × (big_endian 0 bytes ≡ val))
          (htonl_bytes host (some k) val)
  unfolding htonl_bytes copied big_endian
  sent val zero low high h = absurd (omega arith)
  sent val (suc zero) low high h =
      rw (host.store-htonl val (omega arith)) (returns (refl, omega arith, omega arith))
  sent val (suc (suc zero)) low high h =
      rw (host.store-htonl val (omega arith)) (returns (refl, omega arith, omega arith))
  sent val (suc (suc (suc zero))) low high h =
      rw (host.store-htonl val (omega arith)) (returns (refl, omega arith, omega arith))
  sent val (suc (suc (suc (suc zero)))) low high h =
      rw (host.store-htonl val (omega arith)) (returns (refl, omega arith, omega arith))
  sent val (suc (suc (suc (suc (suc k))))) low high h = absurd (omega arith)

  -- what data_htonl writes is as long as int_max_octet says, and data_ntohl reads the number back
  -- from it, whatever follows
  pub data_ntohl-htonl :
      (val : ℕ) (rest : List ℕ)
      → val < 2 ^ 32
      → Returns
          (λ bytes.
            (int_max_octet val ≡ some (length bytes))
            × (data_ntohl host (bytes ++ rest) (length bytes) ≡ ok val))
          (data_htonl host val)
  data_ntohl-htonl val rest h = elim (Option-cases (int_max_octet val)) [
    | inl e ↦ absurd (omega (arith, (int_max_octet-none val).0 e))
    | inr (k, e) ↦
        let (low, high, fits, _) = (int_max_octet_lem val k).0 e in
        rw (data_htonl_lem val, e)
          (Returns-map (sent val k low high fits) λ bytes (len, small, number).
            let read =
              data_ntohl-big_endian bytes rest (length bytes) small (ground (arith, len)) in
            (ap some (sym len), read ∙ ap ok number))
  ]
