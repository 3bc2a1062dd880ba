-- ===== src/Octstr/Convert/RoundTrip.antt =====
-- octstr.c: an integer that is written behind a string is read back from it.
use native.Mathlib.Nat.{zero-add}
use mathlib.Core.List.{append_assoc}
use bflib.Base.{
  ℕ, ◌+◌, ◌-◌, ◌%◌, ◌^◌, ◌≤◌, ◌<◌, ◌≡◌, refl, sym, ap, ◌∙◌, true, false, Bool-cases, inl, inr,
  Option, none, some, List, [], ◌∷◌, ◌++◌, length, length-append, drop, arith, leb, ltb,
  if◌then◌else◌,
}
use bflib.Run.{Run, ok, Returns, returns, Returns-bind, Returns-map, Returns-result, ◌>>=◌}
use bflib.Uintvar.{uintvar_pack, uintvar_unpack, uintvar32_len}
use bflib.Uintvar.RoundTrip.{uintvar_unpack-pack, uintvar_unpack-length}
use bflib.Netint.{Host, data_htonl, data_ntohl, int_max_octet}
use bflib.Netint.Octets.{data_ntohl-htonl, int_max_octet_lem}
use bflib.Octstr.{Octstr, slice, read, octstr_str_append}
use bflib.Octstr.Contents.{
  contents, IsValid, Holds, length-contents, read-ok, octstr_str_append-Holds,
}
use bflib.Octstr.Edit.{drop-slice}
use bflib.Octstr.Convert.{
  octstr_append_uintvar, octstr_unpack_uintvar, append_pack, unpacked, octstr_append_htonl,
  octstr_unpack_ntohl,
}

drop-append : (xs ys : List ℕ) → drop (length xs) (xs ++ ys) ≡ ys
drop-append [] ys = refl
drop-append (x ∷ xs) ys = drop-append xs ys

-- what is behind a first part of the octets
read-behind :
    (t : Octstr) (pos : ℕ) (xs ys : List ℕ)
    → Holds (xs ++ ys) t
    → pos ≡ length xs
    → read t pos (t.len - pos) ≡ ok ys
read-behind t pos xs ys (v, same) e =
    let total : t.len ≡ length xs + length ys =
      omega (arith, length-contents t, ap length same, length-append xs ys) in
    read-ok t pos (t.len - pos) (omega arith)
    ∙ ap ok (
        ap (λ (q : ℕ). slice t.bytes q (t.len - pos)) (sym (zero-add pos))
        ∙ sym (drop-slice t.bytes 0 pos t.len (omega arith))
        ∙ ap (drop pos) same
        ∙ ap (λ (k : ℕ). drop k (xs ++ ys)) e
        ∙ drop-append xs ys)

length-Holds : (t : Octstr) (xs : List ℕ) → Holds xs t → t.len ≡ length xs
length-Holds t xs (v, same) = omega (arith, length-contents t, ap length same)

-- an integer written behind a string, `rest` behind it, and the integer read where it was written
abbrev pub uintvar_read_back : Octstr → ℕ → List ℕ → Run (ℕ × Option (ℕ × ℕ))
uintvar_read_back s value rest = do
  (len, t) ← octstr_append_uintvar s value
  u ← octstr_str_append t rest
  found ← octstr_unpack_uintvar u s.len
  ok (len, found)

append_uintvar_lem :
    (s : Octstr) (value : ℕ) (pack : List ℕ)
    → uintvar_pack uintvar32_len value ≡ some pack
    → octstr_append_uintvar s value ≡ octstr_str_append s pack >>= λ t. ok (length pack, t)
unfolding octstr_append_uintvar append_pack
append_uintvar_lem s value pack e = rw (e) refl

-- more octets behind the last
then_append :
    (t : Octstr) (xs ys rest : List ℕ)
    → Holds (xs ++ ys) t
    → length xs + length ys + length rest < 2 ^ 30
    → Returns (Holds (xs ++ (ys ++ rest))) (octstr_str_append t rest)
then_append t xs ys rest (v, same) h =
    let total : t.len ≡ length xs + length ys =
      omega (arith, length-Holds t (xs ++ ys) (v, same), length-append xs ys) in
    Returns-map (octstr_str_append-Holds t rest v (omega arith))
      λ u (w, all). (w, all ∙ ap (λ zs. zs ++ rest) same ∙ append_assoc xs ys rest)

-- Behind the octets of a string is packed data: octstr_unpack_uintvar reads what uintvar_unpack does.
unpack_uintvar_lem :
    (t : Octstr) (pos value len : ℕ) (xs ys : List ℕ)
    → Holds (xs ++ ys) t
    → pos ≡ length xs
    → uintvar_unpack ys ≡ some (value, len)
    → octstr_unpack_uintvar t pos ≡ ok (some (pos + len, value))
unfolding octstr_unpack_uintvar unpacked
unpack_uintvar_lem t pos value len xs ys holds e known =
    let more = uintvar_unpack-length (value, len) ys known in
    let total : t.len ≡ length xs + length ys =
      omega (arith, length-Holds t (xs ++ ys) holds, length-append xs ys) in
    let inside : leb t.len pos ≡ false = ground arith in
    rw (inside, read-behind t pos xs ys holds e, known) refl

-- Of a value that octstr_append_uintvar writes behind a valid string, octstr_unpack_uintvar reads
-- the low 35 bits back, whatever is appended behind it, and gives the position behind it; the
-- length is at most 5. The string and what follows are shorter than 2 ^ 29 together.
pub octstr_unpack_uintvar-append :
    (s : Octstr) (value : ℕ) (rest : List ℕ)
    → IsValid s
    → s.len + length rest < 2 ^ 29
    → Returns
        (λ (len, found). (len ≤ 5) × (found ≡ some (s.len + len, value % 2 ^ 35)))
        (uintvar_read_back s value rest)
octstr_unpack_uintvar-append s value rest v h =
    let (pack, packed, short, back) = uintvar_unpack-pack uintvar32_len value rest (omega arith) in
    let n = length-contents s in
    rw (append_uintvar_lem s value pack packed) (
      Returns-bind
        (Returns-bind {Q = λ (len, t). (len ≡ length pack) × Holds (contents s ++ pack) t}
          (octstr_str_append-Holds s pack v (omega arith)) (λ t holds. returns (refl, holds)))
        (λ (len, t) (same, holds).
          Returns-bind (then_append t (contents s) pack rest holds (omega arith)) (λ u whole.
            rw
              (
                same,
                unpack_uintvar_lem u s.len (value % 2 ^ 35) (length pack) (contents s)
                    (pack ++ rest) whole (sym n) back,
              )
              (returns (short, refl)))))

module _ (host : Host) where
  -- the same with octstr_append_htonl in the shortest form and octstr_unpack_ntohl
  abbrev pub ntohl_read_back : Octstr → ℕ → List ℕ → Run (ℕ × Option (ℕ × ℕ))
  ntohl_read_back s value rest = do
    (len, t) ← octstr_append_htonl host s value true
    u ← octstr_str_append t rest
    found ← octstr_unpack_ntohl host u s.len len
    ok (len, found)

  unpack_ntohl_lem :
      (t : Octstr) (pos value : ℕ) (xs ys rest : List ℕ)
      → Holds (xs ++ (ys ++ rest)) t
      → pos ≡ length xs
      → data_ntohl host (ys ++ rest) (length ys) ≡ ok value
      → octstr_unpack_ntohl host t pos (length ys)
        ≡ ok (if ltb 0 (length rest) then some (pos + length ys, value) else none)
  unfolding octstr_unpack_ntohl
  unpack_ntohl_lem t pos value xs ys rest holds e known =
      let total : t.len ≡ length xs + (length ys + length rest) = omega (
        arith,
        length-Holds t (xs ++ (ys ++ rest)) holds,
        length-append xs (ys ++ rest),
        length-append ys rest,
      ) in
      elim (Bool-cases (ltb 0 (length rest))) [
        | inl more ↦
            let inside : leb t.len (pos + length ys) ≡ false = ground arith in
            rw (more, inside, read-behind t pos xs (ys ++ rest) holds e, known) refl
        | inr last ↦
            let outside : leb t.len (pos + length ys) ≡ true = ground arith in
            rw (last, outside) refl
      ]

  append_htonl_lem :
      (s : Octstr) (value : ℕ) (bytes : List ℕ)
      → value < 2 ^ 32
      → data_htonl host value ≡ ok bytes
      → octstr_append_htonl host s value true
        ≡ octstr_str_append s bytes >>= λ t. ok (length bytes, t)
  unfolding octstr_append_htonl
  append_htonl_lem s value bytes small e =
      let whole : value % 2 ^ 32 ≡ value = omega arith in rw (whole, e) refl

  -- octstr_append_htonl in the shortest form writes a value below 2 ^ 32 behind a valid string in
  -- the least number of octets, and octstr_unpack_ntohl reads it back if octets are appended
  -- behind it; where it ends the string, the call returns -1. The string and what follows are
  -- shorter than 2 ^ 29 together.
  pub octstr_unpack_ntohl-append :
      (s : Octstr) (value : ℕ) (rest : List ℕ)
      → IsValid s
      → s.len + length rest < 2 ^ 29
      → value < 2 ^ 32
      → Returns
          (λ (len, found).
            (int_max_octet value ≡ some len)
            × (found ≡ (if ltb 0 (length rest) then some (s.len + len, value) else none)))
          (ntohl_read_back s value rest)
  octstr_unpack_ntohl-append s value rest v h small =
      let n = length-contents s in
      let (bytes, sent, (count, back)) = Returns-result (data_ntohl-htonl host value rest small) in
      let (_, short, _, _) = (int_max_octet_lem value (length bytes)).0 count in
      rw (append_htonl_lem s value bytes small sent) (
        Returns-bind
          (Returns-bind {Q = λ (len, t). (len ≡ length bytes) × Holds (contents s ++ bytes) t}
            (octstr_str_append-Holds s bytes v (omega arith)) (λ t holds. returns (refl, holds)))
          (λ (len, t) (same, holds).
            Returns-bind (then_append t (contents s) bytes rest holds (omega arith)) (λ u whole.
              rw (same, unpack_ntohl_lem u s.len value (contents s) bytes rest whole (sym n) back)
                (returns (count, refl)))))
