-- ===== src/Heap/Up.antt =====
-- heap_up (heap.c): it mends the edge above a position.
use Prim.Native.Nat.{Ordering}
use native.Mathlib.Numerals.{add-one}
use bflib.Base.{ℕ, zero, suc, ◌+◌, ◌≤◌, ◌<◌, ◌≡◌, true, false, arith, ltb, lt→ltb}
use bflib.Run.{ok, Returns, returns, Returns-map, Returns-if}
use bflib.Heap.{Heap, parent_pos, is_neg, up_loop, heap_up}
use bflib.Heap.Order.{IsPreorder, IsHeapFrom, UpInv, UpInv-swapped}
use bflib.Heap.Memory.{Kept, Kept-refl, Kept-trans, load-ok, exchanged, exchange-ok, exchanged-Kept}

module _ {A : Type 0} (cmp : A → A → Ordering) (laws : IsPreorder cmp) where
  -- a heap with the cells of `h`, and the count at `n` or more
  abbrev Mended : Heap A → ℕ → Heap A × ℕ → Type 0
  Mended h n (g, m) = IsHeapFrom cmp 0 g.heap g.size × Kept h g × (n ≤ m)

  up_loop-Mended :
      (fuel : ℕ) (h : Heap A) (pos n : ℕ)
      → pos < fuel
      → h.size ≤ h.heap_size
      → UpInv cmp h.heap h.size pos
      → Returns (Mended h n) (up_loop cmp fuel h pos n)
  unfolding up_loop
  up_loop-Mended zero h pos n f fits v = absurd (omega arith)
  up_loop-Mended (suc fuel) h pos n f fits v =
      let p = parent_pos pos in
      let inside = v.inside in
      let above : p < h.size = omega arith in
      rw
        (
          load-ok h pos (omega arith),
          load-ok h p (omega arith),
          exchange-ok h p pos (omega arith) (omega arith),
        )
        (Returns-if (ltb 0 pos)
          (λ below_root.
            let low : 0 < pos = ground arith in
            Returns-if (is_neg (cmp (h.heap pos) (h.heap p)))
              (λ less.
                let kept = exchanged-Kept h p pos above inside (omega arith) in
                Returns-map
                  (up_loop-Mended fuel (exchanged h p pos) p (n + 1) (omega arith) fits
                    (UpInv-swapped cmp laws h.heap h.size pos v low less))
                  λ r m. (m.0, Kept-trans kept m.1, omega (arith, m.2)))
              (λ settled. returns (
                λ c a b l. ground (arith, v.edges c, laws.flip (h.heap p) (h.heap pos)),
                Kept-refl h,
                omega arith,
              )))
          (λ root. returns (λ c a b l. v.edges c a b (ground arith), Kept-refl h, omega arith)))

  -- heap_up, from a heap with one item too low, gives a heap of the same items
  pub heap_up_lem :
      (h : Heap A) (pos : ℕ)
      → h.size ≤ h.heap_size
      → UpInv cmp h.heap h.size pos
      → Returns (λ (g, m). IsHeapFrom cmp 0 g.heap g.size × Kept h g) (heap_up cmp h pos)
  unfolding heap_up
  heap_up_lem h pos fits v =
      Returns-map (up_loop-Mended (pos + 1) h pos 0 (omega arith) fits v) λ r m. (m.0, m.1)

  module _ (h : Heap A) (pos : ℕ) (fits : h.size ≤ h.heap_size) (inside : pos < h.size) where
    -- heap_up stops at once at the root, and at an item that is not less than its parent
    pub heap_up-stays :
        (0 < pos → is_neg (cmp (h.heap pos) (h.heap (parent_pos pos))) ≡ false)
        → heap_up cmp h pos ≡ ok (h, 0)
    unfolding heap_up up_loop
    heap_up-stays more =
        rw (add-one, up_loop)
          (ground
            (arith, load-ok h pos (omega arith), load-ok h (parent_pos pos) (omega arith), more))

    -- an item less than its parent takes one step at least
    pub heap_up-rises :
        0 < pos
        → is_neg (cmp (h.heap pos) (h.heap (parent_pos pos))) ≡ true
        → UpInv cmp h.heap h.size pos
        → Returns
            (λ (g, m). IsHeapFrom cmp 0 g.heap g.size × Kept h g × (1 ≤ m))
            (heap_up cmp h pos)
    unfolding heap_up up_loop
    heap_up-rises low less v =
        let p = parent_pos pos in
        let kept = exchanged-Kept h p pos (omega arith) inside (omega arith) in
        rw
          (
            add-one,
            up_loop,
            load-ok h pos (omega arith),
            load-ok h p (omega arith),
            exchange-ok h p pos (omega arith) (omega arith),
            less,
            lt→ltb 0 pos low,
          )
          (Returns-map
            (up_loop-Mended pos (exchanged h p pos) p 1 (omega arith) fits
              (UpInv-swapped cmp laws h.heap h.size pos v low less))
            λ r m. (m.0, Kept-trans kept m.1, m.2))
