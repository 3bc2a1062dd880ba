-- ===== src/Heap/Accessor.antt =====
-- heap_set_info_accessor and heap_destroy (heap.c): the loops over all the cells.
use mathlib.Core.List.{Perm, perm_middle, append-nil}
use mathlib.Core.List.Perm
use native.Mathlib.Nat.{add-zero, zero-add}
use native.Mathlib.Numerals.{add-one}
use bflib.Base.{ℕ, zero, suc, ◌+◌, ◌≤◌, ◌<◌, ◌≡◌, ◌≢◌, true, false, refl, some, [], ◌++◌, arith}
use bflib.Run.{ok, Returns, returns, Returns-bind, Returns-map}
use bflib.Heap.{Heap, update, destroy_loop, heap_destroy, accessor_loop, heap_set_info_accessor}
use bflib.Heap.Memory.{items, items-zero, items-suc, load-ok}

module _ {A : Type 0} where
  -- `g` is `h` but for the infos, and the first `n` infos hold their positions
  abbrev TrackedUpto : (A → ℕ) → ℕ → Heap A → Heap A → Type 0
  TrackedUpto get n h g =
      (g ≡ record h { infos = g.infos }) × ((i : ℕ) → i < n → g.infos (get (h.heap i)) ≡ i)

  module _ (get : A → ℕ) (f : ℕ → A) (size room : ℕ) (fits : size ≤ room)
      (apart : (i j : ℕ) → i < size → j < size → i ≢ j → get (f i) ≢ get (f j)) where
    -- the heap of the loop: only its infos change
    abbrev with_infos : (ℕ → ℕ) → Heap A
    with_infos infos = record {
      heap = f;
      heap_size = room;
      size = size;
      get_info = some get;
      infos = infos;
    }

    accessor_loop_lem :
        (rounds i : ℕ) (infos : ℕ → ℕ)
        → i + rounds ≡ size
        → ((j : ℕ) → j < i → infos (get (f j)) ≡ j)
        → Returns
            (TrackedUpto get size (with_infos infos))
            (accessor_loop get (with_infos infos) rounds i)
    unfolding accessor_loop
    accessor_loop_lem zero i infos e done = returns (refl, λ j p. done j (omega arith))
    accessor_loop_lem (suc rounds) i infos e done =
        rw (load-ok (with_infos infos) i (omega arith)) (
          Returns-map
            (accessor_loop_lem rounds (i + 1) (update infos (get (f i)) i) (omega arith)
              (λ j p. ground (arith, done j, apart i j)))
            λ g (same, tracked). (same, tracked))

  -- heap_set_info_accessor writes every item's position into its info, and touches nothing else
  pub heap_set_info_accessor_lem :
      (h : Heap A) (get : A → ℕ)
      → h.size ≤ h.heap_size
      → ((i j : ℕ) → i < h.size → j < h.size → i ≢ j → get (h.heap i) ≢ get (h.heap j))
      → Returns
          (λ g.
            (g ≡ record h { get_info = some get; infos = g.infos })
            × ((i : ℕ) → i < h.size → g.infos (get (h.heap i)) ≡ i))
          (heap_set_info_accessor h (some get))
  unfolding heap_set_info_accessor
  heap_set_info_accessor_lem h get fits apart =
      accessor_loop_lem get h.heap h.size h.heap_size fits apart h.size 0 h.infos (omega arith)
        (λ j p. absurd (omega arith))

  destroy_loop_lem :
      (h : Heap A) (live i : ℕ)
      → i + live ≤ h.heap_size
      → Returns
          (λ xs. Perm (xs ++ items h.heap i) (items h.heap (i + live)))
          (destroy_loop h live i)
  unfolding destroy_loop
  destroy_loop_lem h zero i p = returns (rw add-zero (Perm.refl _))
  destroy_loop_lem h (suc live) i p = rw (load-ok h i (omega arith)) (
      Returns-bind (destroy_loop_lem h live (i + 1) (omega arith)) λ xs perm.
        let shift : i + 1 + live ≡ i + suc live = omega arith in
        let perm' = rw (shift, add-one, items-suc) at perm in
        returns (Perm.trans (Perm.symm (perm_middle xs (items h.heap i))) perm'))

  -- with no destructor heap_destroy hands over nothing
  pub heap_destroy-none : (h : Heap A) → heap_destroy h false ≡ ok []
  unfolding heap_destroy
  heap_destroy-none h = refl

  -- heap_destroy hands every item of the heap to the destructor once, and no other
  pub heap_destroy_lem :
      (h : Heap A)
      → h.size ≤ h.heap_size
      → Returns (λ xs. Perm xs (items h.heap h.size)) (heap_destroy h true)
  unfolding heap_destroy
  heap_destroy_lem h fits =
      Returns-map (destroy_loop_lem h h.size 0 (omega (arith, fits)))
        λ xs perm. rw (zero-add, items-zero, append-nil) at perm
