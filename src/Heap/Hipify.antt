-- ===== src/Heap/Hipify.antt =====
-- heap_hipify_pos (heap.c): it mends both edges at a position, by going up or else down.
use Prim.Native.Nat.{Ordering}
use bflib.Base.{ℕ, ◌≤◌, ◌<◌, ◌≡◌, ◌⊎◌, true, false, inl, inr, Bool-cases, arith, ltb, ◌==◌}
use bflib.Run.{Returns, returns, Returns-bind}
use bflib.Heap.{Heap, parent_pos, is_neg, heap_hipify_pos}
use bflib.Heap.Order.{IsPreorder, IsHeapFrom, UpInv, DownInv, SpotInv}
use bflib.Heap.Memory.{Kept}
use bflib.Heap.Up.{heap_up-stays, heap_up-rises}
use bflib.Heap.Down.{heap_down_lem}

zero_test : (m : ℕ) → 1 ≤ m → (m == 0) ≡ false
zero_test m h = ground arith

module _ {A : Type 0} (cmp : A → A → Ordering) (laws : IsPreorder cmp) where
  -- whether heap_up would move the item of `pos`
  spot-cases :
      (h : Heap A) (pos : ℕ)
      → ((0 < pos) × (is_neg (cmp (h.heap pos) (h.heap (parent_pos pos))) ≡ true))
        ⊎ (0 < pos → is_neg (cmp (h.heap pos) (h.heap (parent_pos pos))) ≡ false)
  spot-cases h pos = elim (Bool-cases (ltb 0 pos)) [
    | inr root ↦ inr (λ low. absurd (ground arith))
    | inl low ↦ elim (Bool-cases (is_neg (cmp (h.heap pos) (h.heap (parent_pos pos))))) [
      | inl less ↦ inl (ground arith, less)
      | inr more ↦ inr (λ _. more)
    ]
  ]

  module _ (h : Heap A) (pos : ℕ) (fits : h.size ≤ h.heap_size)
      (v : SpotInv cmp h.heap h.size pos) where
    -- an item less than its parent is no greater than its children
    spot-UpInv :
        0 < pos
        → is_neg (cmp (h.heap pos) (h.heap (parent_pos pos))) ≡ true
        → UpInv cmp h.heap h.size pos
    spot-UpInv low less = record {
      inside = v.inside;
      edges = λ c p q r. ground (
        arith,
        v.edges c,
        v.bridged c,
        laws.flip (h.heap pos) (h.heap (parent_pos pos)),
        laws.trans (h.heap pos) (h.heap (parent_pos pos)) (h.heap c),
        laws.flip (h.heap (parent_pos pos)) (h.heap pos),
      );
      bridged = v.bridged;
    }

    -- an item that is not less than its parent has only the edges below it to mend
    spot-DownInv :
        (0 < pos → is_neg (cmp (h.heap pos) (h.heap (parent_pos pos))) ≡ false)
        → DownInv cmp 0 h.heap h.size pos
    spot-DownInv more = record {
      edges =
          λ c p q r s. ground (arith, v.edges c, laws.flip (h.heap (parent_pos pos)) (h.heap pos));
      bridged = v.bridged;
    }

    -- heap_hipify_pos gives a heap of the same items, whatever item stands at the position
    pub heap_hipify_pos_lem :
        Returns (λ (g, m). IsHeapFrom cmp 0 g.heap g.size × Kept h g) (heap_hipify_pos cmp h pos)
    unfolding heap_hipify_pos
    heap_hipify_pos_lem = elim (spot-cases h pos) [
      | inl (low, less) ↦
          Returns-bind (heap_up-rises cmp laws h pos fits v.inside low less (spot-UpInv low less))
            λ (g, m) (order, kept, moved). rw (zero_test m moved) (returns (order, kept))
      | inr more ↦
          rw (heap_up-stays cmp laws h pos fits v.inside more)
            (heap_down_lem cmp laws 0 h pos fits (spot-DownInv more))
    ]
