-- ===== src/Heap/Calls/Remove.antt =====
-- heap_shift, heap_min, heap_del_pos, heap_del and heap_del_item (heap.c).
use Prim.Native.Nat.{Ordering}
use mathlib.Core.List.{Perm}
use mathlib.Core.List.Perm
use native.Mathlib.Numerals.{add-one}
use bflib.Base.{
  ℕ, ◌+◌, ◌-◌, ◌≤◌, ◌<◌, ◌≡◌, refl, ◌∙◌, Option, none, some, ◌∷◌, arith, ◌==◌, inl, inr, Bool-cases,
  lt→ltb, le→ltb,
}
use bflib.Run.{ok, Returns, returns, Returns-bind}
use bflib.Heap.{Heap, block_size, parent_pos, update, set_info, heap_resize, heap_min}
use bflib.Heap.Order.{Le, IsPreorder, IsHeapFrom, DownInv, SpotInv, root_le}
use bflib.Heap.Memory.{
  items, items-suc, items-refill, Tracked-refill, Tracked-less, Kept, load-ok, heap_move-ok,
}
use bflib.Heap.Down.{heap_down_lem}
use bflib.Heap.Hipify.{heap_hipify_pos_lem}
use bflib.Heap.Calls.{shrink, heap_shift, heap_del_pos}
use bflib.Heap.Calls.Insert.{IsValid}

-- heap_resize gives back the blocks beyond one, and changes nothing but the size of the block
shrink_lem :
    {A : Type 0} (h : Heap A)
    → h.size ≤ h.heap_size
    → (h.size ≤ (shrink h).heap_size)
      × ((shrink h).heap_size ≤ h.size + block_size)
      × ((shrink h).heap ≡ h.heap)
      × ((shrink h).size ≡ h.size)
      × ((shrink h).get_info ≡ h.get_info)
      × ((shrink h).infos ≡ h.infos)
unfolding shrink heap_resize
shrink_lem h p = ground arith

module _ {A : Type 0} (cmp : A → A → Ordering) (laws : IsPreorder cmp) where
  -- `g` is `h` less one item, and valid
  pub record Removed (h : Heap A) (item : A) (g : Heap A) : Type 0 where
    pub valid : IsValid cmp g
    pub perm : Perm (item ∷ items g.heap g.size) (items h.heap h.size)
    pub size : g.size + 1 ≡ h.size
    pub get_info : g.get_info ≡ h.get_info

  -- `h` with the last of its `n + 1` items moved to `p`
  abbrev cut : Heap A → ℕ → ℕ → Heap A
  cut h n p = record h {
    heap = update h.heap p (h.heap n);
    size = n;
    infos = set_info h.get_info (h.heap n) p h.infos;
  }

  -- a heap of the cells that are left, in a block that may shrink
  Removed-shrink :
      (h : Heap A) (n p : ℕ) (g : Heap A)
      → h.size ≡ n + 1
      → p ≤ n
      → IsValid cmp h
      → IsHeapFrom cmp 0 g.heap g.size
      → Kept (cut h n p) g
      → Removed h (h.heap p) (shrink g)
  Removed-shrink h n p g size q v order kept =
      let t = rw size at v.tracked in
      let (fits, tight, heap, same, info, infos) =
        shrink_lem g (omega (arith, kept.size, kept.heap_size, v.fits)) in
      record {
        valid = record {
          fits = omega (arith, same);
          tight = omega (arith, same);
          order = rw (heap, same) order;
          tracked =
              rw (heap, same, info, infos)
                (kept.tracked (Tracked-refill h.get_info h.heap n p h.infos q t));
        };
        perm =
            rw (heap, same, size) (Perm.trans (Perm.cons _ kept.perm) (items-refill n h.heap p q));
        size = omega (arith, same, kept.size);
        get_info = info ∙ kept.get_info;
      }

  cut-DownInv :
      (h : Heap A) (n : ℕ)
      → h.size ≡ n + 1
      → IsHeapFrom cmp 0 h.heap h.size
      → DownInv cmp 0 (cut h n 0).heap n 0
  cut-DownInv h n size order = record {
    edges = λ c p q r s. ground (arith, order c);
    bridged = λ c p q r s. absurd (omega arith);
  }

  cut-SpotInv :
      (h : Heap A) (n p : ℕ)
      → h.size ≡ n + 1
      → p < n
      → IsHeapFrom cmp 0 h.heap h.size
      → SpotInv cmp (cut h n p).heap n p
  cut-SpotInv h n p size inside order = record {
    inside = inside;
    edges = λ c q r s t. ground (arith, order c);
    bridged = λ c q r s t u.
        ground (arith, order c, order p, laws.trans (h.heap (parent_pos p)) (h.heap p) (h.heap c));
  }

  -- heap_min and heap_shift give this of a heap that is not empty
  pub record Shifted (h : Heap A) (r : Option A × Heap A) : Type 0 where
    pub item : r.0 ≡ some (h.heap 0)
    pub removed : Removed h (h.heap 0) r.1
    pub least : (i : ℕ) → i < h.size → Le cmp (h.heap 0) (h.heap i)

  -- heap_shift on an empty heap returns NULL and changes nothing
  pub heap_shift-empty : (h : Heap A) → h.size ≡ 0 → heap_shift cmp h ≡ ok (none, h)
  unfolding heap_shift
  heap_shift-empty h e = ground arith

  -- heap_shift on a valid heap with items takes out a least one, and no other
  pub heap_shift_lem :
      (h : Heap A) → IsValid cmp h → 0 < h.size → Returns (Shifted h) (heap_shift cmp h)
  unfolding heap_shift
  heap_shift_lem h v low =
      let n = h.size - 1 in
      let size : h.size ≡ n + 1 = omega arith in
      rw
        (
          lt→ltb 0 h.size low,
          load-ok h 0 (omega (arith, v.fits)),
          load-ok (record h { size = n }) n (omega (arith, v.fits)),
          heap_move-ok (record h { size = n }) 0 (h.heap n) (omega (arith, v.fits)),
        )
        (Returns-bind
          (heap_down_lem cmp laws 0 (cut h n 0) 0 (omega (arith, v.fits))
            (cut-DownInv h n size v.order))
          λ (g, m) (order, kept). returns (record {
            item = refl;
            removed = Removed-shrink h n 0 g size (omega arith) v order kept;
            least = λ i p. root_le cmp laws h.heap h.size i v.order p;
          }))

  -- heap_min of an empty heap is NULL
  pub heap_min-empty : (h : Heap A) → h.size ≡ 0 → heap_min h ≡ ok none
  unfolding heap_min
  heap_min-empty h e = ground arith

  pub heap_min-least :
      (h : Heap A) → IsValid cmp h → (i : ℕ) → i < h.size → Le cmp (h.heap 0) (h.heap i)
  heap_min-least h v i p = root_le cmp laws h.heap h.size i v.order p

  -- heap_min is the item that heap_shift would take
  pub heap_min_lem : (h : Heap A) → IsValid cmp h → 0 < h.size → heap_min h ≡ ok (some (h.heap 0))
  unfolding heap_min
  heap_min_lem h v low = rw (lt→ltb 0 h.size low, load-ok h 0 (omega (arith, v.fits)))

  -- `h` without its last cell
  Removed-last :
      (h : Heap A) (n : ℕ)
      → h.size ≡ n + 1
      → IsValid cmp h
      → Removed h (h.heap n) (shrink (record h { size = n }))
  Removed-last h n size v =
      let (fits, tight, heap, same, info, infos) =
        shrink_lem (record h { size = n }) (omega (arith, v.fits)) in
      let t = rw size at v.tracked in
      record {
        valid = record {
          fits = omega (arith, same);
          tight = omega (arith, same);
          order = rw (heap, same) (λ c p q r. v.order c p (omega arith) r);
          tracked = rw (heap, same, info, infos) (Tracked-less h.get_info h.heap n h.infos t);
        };
        perm = rw (heap, same, size, add-one, items-suc) (Perm.refl _);
        size = omega (arith, same);
        get_info = info;
      }

  -- heap_del_pos on a position in use takes out the item there, and no other
  pub heap_del_pos_lem :
      (h : Heap A) (pos : ℕ)
      → IsValid cmp h
      → pos < h.size
      → Returns
          (λ (x, g). (x ≡ some (h.heap pos)) × Removed h (h.heap pos) g)
          (heap_del_pos cmp h pos)
  unfolding heap_del_pos
  heap_del_pos_lem h pos v inside =
      let n = h.size - 1 in
      let size : h.size ≡ n + 1 = omega arith in
      rw (lt→ltb pos h.size inside, load-ok h pos (omega (arith, v.fits)))
        (elim (Bool-cases (pos == n)) [
          | inl last ↦
              let same : pos ≡ n = ground arith in
              rw (last, same) (returns (refl, Removed-last h n size v))
          | inr before ↦
              rw
                (
                  before,
                  load-ok (record h { size = n }) n (omega (arith, v.fits)),
                  heap_move-ok (record h { size = n }) pos (h.heap n) (omega (arith, v.fits)),
                )
                (Returns-bind {P = λ g. IsHeapFrom cmp 0 g.heap g.size × Kept (cut h n pos) g}
                  (Returns-bind
                    (heap_hipify_pos_lem cmp laws (cut h n pos) pos (omega (arith, v.fits))
                      (cut-SpotInv h n pos size (ground arith) v.order))
                    λ r k. returns k)
                  λ g (order, kept).
                    returns (refl, Removed-shrink h n pos g size (omega arith) v order kept))
        ])

  -- heap_del_pos on a position that is not in use returns NULL and changes nothing
  pub heap_del_pos-beyond :
      (h : Heap A) (pos : ℕ) → h.size ≤ pos → heap_del_pos cmp h pos ≡ ok (none, h)
  unfolding heap_del_pos
  heap_del_pos-beyond h pos p = rw (le→ltb pos h.size p)
