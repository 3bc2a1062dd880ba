-- ===== src/Heap/Down.antt =====
-- heap_down (heap.c): it mends the edges below a position; and heap_build_heap.
use Prim.Native.Nat.{Ordering}
use bflib.Base.{
  ℕ, zero, suc, ◌+◌, ◌-◌, ◌*◌, ◌≤◌, ◌<◌, ◌≡◌, ◌⊎◌, Bool-cases, refl, inl, inr, arith, ltb,
}
use bflib.Run.{Returns, returns, Returns-bind, Returns-map, Returns-if}
use bflib.Heap.{Heap, left_pos, right_pos, is_neg, down_child, down_loop, heap_down, build_loop}
use bflib.Heap.Order.{Le, IsPreorder, IsHeapFrom, DownInv, IsLeastChild, DownInv-swapped, Le-refl}
use bflib.Heap.Memory.{Kept, Kept-refl, Kept-trans, load-ok, exchanged, exchange-ok, exchanged-Kept}

module _ {A : Type 0} (cmp : A → A → Ordering) (laws : IsPreorder cmp) where
  -- the child that heap_down compares with
  abbrev LeastChild : Heap A → ℕ → ℕ → Type 0
  LeastChild h i m =
      (left_pos i ≤ m)
      × (m < h.size → IsLeastChild cmp h.heap h.size i m)
      × (h.size ≤ m → h.size ≤ left_pos i)

  least_of_two :
      (h : Heap A) (i m : ℕ)
      → m < h.size
      → (m ≡ i * 2 + 1) ⊎ (m ≡ i * 2 + 2)
      → ((c : ℕ) → c < h.size → (c ≡ left_pos i) ⊎ (c ≡ right_pos i) → Le cmp (h.heap m) (h.heap c))
      → IsLeastChild cmp h.heap h.size i m
  least_of_two h i m p at least = record {
    inside = p;
    child = at;
    least = λ c q r s. least c r (omega arith);
  }

  down_child-IsLeastChild :
      (h : Heap A) (i : ℕ) → h.size ≤ h.heap_size → Returns (LeastChild h i) (down_child cmp h i)
  unfolding down_child
  down_child-IsLeastChild h i fits =
      let l = left_pos i in
      let r = right_pos i in
      Returns-if (ltb r h.size)
        (λ e.
          rw (load-ok h l (ground arith), load-ok h r (ground arith))
            (elim (Bool-cases (is_neg (cmp (h.heap l) (h.heap r)))) [
              | inl less ↦ rw less (
                  returns (
                    omega arith,
                    λ p. least_of_two h i l p (inl refl) (λ c q s. ground (
                      arith,
                      Le-refl cmp laws (h.heap l),
                      laws.flip (h.heap l) (h.heap r),
                      laws.flip (h.heap r) (h.heap l),
                    )),
                    λ p. omega arith,
                  ))
              | inr more ↦ rw more (
                  returns (
                    omega arith,
                    λ p. least_of_two h i r p (inr refl) (λ c q s.
                        ground
                          (arith, Le-refl cmp laws (h.heap r), laws.flip (h.heap r) (h.heap l))),
                    λ p. ground arith,
                  ))
            ]))
        (λ e. returns (
          omega arith,
          λ p.
              least_of_two h i l p (inl refl)
                (λ c q s. ground (arith, Le-refl cmp laws (h.heap l))),
          λ p. omega arith,
        ))

  -- the cells are in order from `lo` on, and are those of `h`
  abbrev pub Sunk : ℕ → Heap A → Heap A × ℕ → Type 0
  Sunk lo h (g, m) = IsHeapFrom cmp lo g.heap g.size × Kept h g

  down_loop-Sunk :
      (fuel lo : ℕ) (h : Heap A) (i n : ℕ)
      → h.size - i < fuel
      → h.size ≤ h.heap_size
      → DownInv cmp lo h.heap h.size i
      → Returns (Sunk lo h) (down_loop cmp fuel h i n)
  unfolding down_loop
  down_loop-Sunk zero lo h i n f fits v = absurd (omega arith)
  down_loop-Sunk (suc fuel) lo h i n f fits v =
      Returns-bind (down_child-IsLeastChild h i fits) λ m (low, least, leaf).
        Returns-if (ltb m h.size)
          (λ e.
            let s = least (ground arith) in
            let inside : i < h.size = omega (arith, s.inside) in
            rw
              (
                load-ok h m (ground arith),
                load-ok h i (omega arith),
                exchange-ok h m i (ground arith) (omega arith),
              )
              (Returns-if (is_neg (cmp (h.heap m) (h.heap i)))
                (λ less.
                  Returns-map
                    (down_loop-Sunk fuel lo (exchanged h m i) m (n + 1) (omega (arith, s.inside))
                      fits (DownInv-swapped cmp laws lo h.heap h.size i m v s less))
                    λ r d.
                      (d.0, Kept-trans (exchanged-Kept h m i s.inside inside (omega arith)) d.1))
                (λ settled. returns (
                  λ c p q r. ground (
                    arith,
                    v.edges c,
                    s.least c,
                    laws.flip (h.heap i) (h.heap m),
                    laws.trans (h.heap i) (h.heap m) (h.heap c),
                  ),
                  Kept-refl h,
                ))))
          (λ e. returns (λ c p q r. ground (arith, v.edges c, leaf), Kept-refl h))

  -- heap_down, from cells with one item too high, puts them in order from `lo` on
  pub heap_down_lem :
      (lo : ℕ) (h : Heap A) (i : ℕ)
      → h.size ≤ h.heap_size
      → DownInv cmp lo h.heap h.size i
      → Returns (Sunk lo h) (heap_down cmp h i)
  unfolding heap_down
  heap_down_lem lo h i fits v = down_loop-Sunk (h.size + 1) lo h i 0 (omega arith) fits v

  -- each round of heap_build_heap extends the ordered part by one parent
  pub build_loop_lem :
      (i n : ℕ) (h : Heap A)
      → h.size ≤ h.heap_size
      → IsHeapFrom cmp i h.heap h.size
      → Returns (Sunk 0 h) (build_loop cmp h i n)
  unfolding build_loop
  build_loop_lem zero n h fits v = returns (v, Kept-refl h)
  build_loop_lem (suc i) n h fits v =
      Returns-bind (heap_down_lem i h i fits (grind arith)) λ (g, m) (order, kept).
        Returns-map (build_loop_lem i (n + m) g (omega (arith, kept.size, kept.heap_size)) order)
          λ r d. (d.0, Kept-trans kept d.1)
