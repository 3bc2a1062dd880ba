-- ===== src/Octstr/Convert/Hex.antt =====
-- octstr.c: octstr_to_hex. The two characters that sprintf writes for a byte are a parameter.
use mathlib.Core.List.{append_assoc, append-nil}
use bflib.Base.{
  ℕ, zero, suc, ◌+◌, ◌*◌, ◌^◌, ◌<◌, ◌≡◌, sym, ap, ◌∙◌, List, [], ◌∷◌, ◌++◌, length, length-append,
  arith, ltb, lt→ltb, if◌then◌else◌,
}
use bflib.Run.{Run, ok, fault, Returns, returns, Returns-bind, Returns-map, ◌>>=◌}
use bflib.Octstr.{Octstr, slice, octstr_create, octstr_str_append}
use bflib.Octstr.Contents.{contents, IsValid, Holds, length-contents, octstr_str_append-Holds}
use bflib.Octstr.Edit.{octstr_create-Holds}

module _ (hex : ℕ → ℕ × ℕ) where
  -- `for( i = 0 ; i < len ; i++ )`, with len - i rounds left
  hex_loop : (rounds : ℕ) → Octstr → ℕ → Octstr → Run Octstr
  hex_loop zero s i out = ok out
  hex_loop (suc rounds) s i out =
      if ltb i s.size
      then (do
        let (high, low) = hex (s.bytes i)
        out ← octstr_str_append out (high ∷ low ∷ [])
        hex_loop rounds s (i + 1) out)
      else fault

  pub octstr_to_hex : (memory : ℕ → ℕ) → Octstr → Run Octstr
  unfolding hex_loop
  octstr_to_hex memory s = octstr_create memory [] >>= λ out. hex_loop s.len s 0 out

  -- two characters for each octet
  hex_text : List ℕ → List ℕ
  hex_text [] = []
  hex_text (b ∷ bs) = (hex b).0 ∷ (hex b).1 ∷ hex_text bs

  hex_loop_lem :
      (rounds : ℕ) (s : Octstr) (i : ℕ) (out : Octstr) (xs : List ℕ)
      → i + rounds < s.size
      → Holds xs out
      → length xs + 2 * rounds < 2 ^ 30
      → Returns (Holds (xs ++ hex_text (slice s.bytes i rounds))) (hex_loop rounds s i out)
  unfolding hex_loop hex_text
  hex_loop_lem zero s i out xs h (v, same) small = returns (v, same ∙ sym (append-nil xs))
  hex_loop_lem (suc rounds) s i out xs h (v, same) small =
      let pair = (hex (s.bytes i)).0 ∷ (hex (s.bytes i)).1 ∷ [] in
      let n : out.len ≡ length xs = omega (arith, length-contents out, ap length same) in
      rw (lt→ltb i s.size (omega arith)) (
        Returns-bind (octstr_str_append-Holds out pair v (omega arith)) (λ out' (v', all).
          Returns-map
            (hex_loop_lem rounds s (i + 1) out' (xs ++ pair) (omega arith)
              (v', all ∙ ap (λ ys. ys ++ pair) same) (omega (arith, length-append xs pair)))
            λ t (w, all').
              (w, all' ∙ append_assoc xs pair (hex_text (slice s.bytes (i + 1) rounds)))))

  -- octstr_to_hex writes the two characters of each octet, in their order
  octstr_to_hex-hex_text :
      (memory : ℕ → ℕ) (s : Octstr)
      → IsValid s
      → s.len < 2 ^ 29
      → Returns (Holds (hex_text (contents s))) (octstr_to_hex memory s)
  unfolding octstr_to_hex
  octstr_to_hex-hex_text memory s v h =
      Returns-bind (octstr_create-Holds memory [] (omega arith))
        (λ out holds. hex_loop_lem s.len s 0 out [] (omega arith) holds (omega arith))
