-- ===== src/Heap/Calls/Check.antt =====
-- heap_check_properties and heap_set_info_accessor (heap.c).
use Prim.Native.Nat.{Ordering}
use mathlib.Core.Path.{subst}
use native.Mathlib.Decide.{ℕ_discrete}
use bflib.Base.{
  ℕ, zero, suc, ◌+◌, ◌≤◌, ◌<◌, ◌≡◌, ◌↔◌, Bool, true, false, ◌||◌, not, refl, Option, none, some,
  arith, ltb,
}
use bflib.Run.{ok, Returns, returns, Returns-bind, Returns-map, Returns-if}
use bflib.Heap.{Heap, parent_pos, left_pos, right_pos, is_neg, is_pos}
use bflib.Heap.Order.{Le, IsPreorder, IsHeapFrom}
use bflib.Heap.Memory.{Tracked, load-ok}
use bflib.Heap.Calls.{info_agrees, check_edge, check_pos, check_loop, heap_check_properties}

module _ {A : Type 0} (cmp : A → A → Ordering) where
  agrees-Tracked :
      (get_info : Option (A → ℕ)) (f : ℕ → A) (n : ℕ) (infos : ℕ → ℕ)
      → ((i : ℕ) → i < n → info_agrees cmp get_info infos (f i) i ≡ true)
      → Tracked get_info f n infos
  unfolding info_agrees
  agrees-Tracked none f n infos all = tt
  agrees-Tracked (some get) f n infos all = λ i p. ground (arith, all i p)

  Tracked-agrees :
      (get_info : Option (A → ℕ)) (f : ℕ → A) (n : ℕ) (infos : ℕ → ℕ)
      → Tracked get_info f n infos
      → (i : ℕ) → i < n
      → info_agrees cmp get_info infos (f i) i ≡ true
  unfolding info_agrees
  Tracked-agrees none f n infos t = λ i p. refl
  Tracked-agrees (some get) f n infos t = λ i p. ground (arith, t i p)

  -- cell `i` passes its test
  record Passes (h : Heap A) (i : ℕ) : Type 0 where
    info : info_agrees cmp h.get_info h.infos (h.heap i) i ≡ true
    up : 0 < parent_pos i → Le cmp (h.heap (parent_pos i)) (h.heap i)
    left : left_pos i < h.size → is_neg (cmp (h.heap (left_pos i)) (h.heap i)) ≡ false
    right : right_pos i < h.size → is_neg (cmp (h.heap (right_pos i)) (h.heap i)) ≡ false

  check_edge-ok :
      (h : Heap A) (guard : Bool) (j : ℕ) (test : A → Bool)
      → (guard ≡ true → j < h.heap_size)
      → check_edge cmp h guard j test ≡ ok (not guard || test (h.heap j))
  unfolding check_edge
  check_edge-ok h true j test inside = rw (load-ok h j (inside refl))
  check_edge-ok h false j test inside = refl

  check_pos-Passes :
      (h : Heap A) (i : ℕ)
      → h.size ≤ h.heap_size
      → i < h.size
      → Returns (λ b. (b ≡ true) ↔ Passes h i) (check_pos cmp h i)
  unfolding check_pos
  check_pos-Passes h i fits inside =
      rw
        (
          load-ok h i (omega arith),
          check_edge-ok h (ltb 0 (parent_pos i)) (parent_pos i)
              (λ y. not (is_pos (cmp y (h.heap i)))) (λ e. ground arith),
          check_edge-ok h (ltb (left_pos i) h.size) (left_pos i)
              (λ y. not (is_neg (cmp y (h.heap i)))) (λ e. ground arith),
          check_edge-ok h (ltb (right_pos i) h.size) (right_pos i)
              (λ y. not (is_neg (cmp y (h.heap i)))) (λ e. ground arith),
        )
        (Returns-if (info_agrees cmp h.get_info h.infos (h.heap i) i)
          (λ a.
            Returns-if
              (not (ltb 0 (parent_pos i)) || not (is_pos (cmp (h.heap (parent_pos i)) (h.heap i))))
              (λ b.
                Returns-if
                  (not (ltb (left_pos i) h.size)
                    || not (is_neg (cmp (h.heap (left_pos i)) (h.heap i))))
                  (λ c. returns (
                    λ d. record {
                      info = a;
                      up = λ p. ground arith;
                      left = λ p. ground arith;
                      right = λ p. ground arith;
                    },
                    λ r. ground (arith, r.right),
                  ))
                  (λ c. returns (λ d. cc, λ r. ground (arith, r.left))))
              (λ b. returns (λ d. cc, λ r. ground (arith, r.up))))
          (λ a. returns (λ d. cc, λ r. ground (arith, r.info))))

  check_loop-Passes :
      (h : Heap A) (rounds i : ℕ)
      → h.size ≤ h.heap_size
      → i + rounds ≡ h.size
      → Returns
          (λ b. (b ≡ true) ↔ ((j : ℕ) → i ≤ j → j < h.size → Passes h j))
          (check_loop cmp h rounds i)
  unfolding check_loop
  check_loop-Passes h zero i fits e = returns (λ d j p q. absurd (omega arith), λ all. refl)
  check_loop-Passes h (suc rounds) i fits e =
      Returns-bind (check_pos-Passes h i fits (omega arith)) λ passed here.
        Returns-if passed
          (λ a. Returns-map (check_loop-Passes h rounds (i + 1) fits (omega arith)) λ b later. (
            λ d j p q. elim (ℕ_discrete i j) [
              | yes same ↦ subst (Passes h) same (here.0 a)
              | no other ↦ later.0 d j (omega arith) q
            ],
            λ all. later.1 (λ j p q. all j (omega arith) q),
          ))
          (λ a. returns (λ d. cc, λ all. let b = here.1 (all i (omega arith) (omega arith)) in cc))

  module _ (laws : IsPreorder cmp) where
    -- the test accepts exactly the cells in heap order whose infos hold their positions
    pub heap_check_properties_lem :
        (h : Heap A)
        → h.size ≤ h.heap_size
        → Returns
            (λ b.
              (b ≡ true)
              ↔ (IsHeapFrom cmp 0 h.heap h.size × Tracked h.get_info h.heap h.size h.infos))
            (heap_check_properties cmp h)
    unfolding heap_check_properties
    heap_check_properties_lem h fits =
        Returns-map (check_loop-Passes h h.size 0 fits (omega arith)) λ b all. (
          λ e. (
            λ c p q r. ground (
              arith,
              all.0 e (parent_pos c) (omega arith) (omega arith),
              laws.flip (h.heap (parent_pos c)) (h.heap c),
            ),
            agrees-Tracked h.get_info h.heap h.size h.infos
                (λ i p. (all.0 e i (omega arith) p).info),
          ),
          λ (order, tracked). all.1 (λ j p q. record {
            info = Tracked-agrees h.get_info h.heap h.size h.infos tracked j q;
            up = λ r. order j (omega arith) q (omega arith);
            left =
                λ r. ground (arith, order (left_pos j), laws.flip (h.heap j) (h.heap (left_pos j)));
            right = λ r.
                ground (arith, order (right_pos j), laws.flip (h.heap j) (h.heap (right_pos j)));
          }),
        )
