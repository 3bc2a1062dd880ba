-- ===== src/Heap/Calls/Insert.antt =====
-- heap_create, heap_build and heap_insert (heap.c): the invariant of a heap, and how it is reached.
use Prim.Native.Nat.{Ordering}
use mathlib.Core.List.{Perm}
use bflib.Base.{
  ℕ, ◌+◌, ◌-◌, ◌/◌, ◌≤◌, ◌<◌, ◌≡◌, ◌≢◌, refl, Option, none, some, ◌∷◌, arith, ltb, if◌then◌else◌,
}
use bflib.Run.{Returns, returns, Returns-bind, Returns-if}
use bflib.Heap.{Heap, block_size, update, set_info, heap_create, heap_resize}
use bflib.Heap.Order.{IsPreorder, IsHeapFrom, UpInv}
use bflib.Heap.Memory.{items, items-write_end, items-congr, Kept-refl, heap_move-ok, Tracked}
use bflib.Heap.Up.{heap_up_lem}
use bflib.Heap.Down.{Sunk, build_loop_lem}
use bflib.Heap.Calls.{heap_build_heap, heap_build, heap_insert, grow}

-- The cells in use are allocated, and at most a block more; they are in heap order; and the infos
-- hold the positions.
pub record IsValid {A : Type 0} (cmp : A → A → Ordering) (h : Heap A) : Type 0 where
  pub fits : h.size ≤ h.heap_size
  pub tight : h.heap_size ≤ h.size + block_size
  pub order : IsHeapFrom cmp 0 h.heap h.size
  pub tracked : Tracked h.get_info h.heap h.size h.infos

-- no live item shares its info with `item`
abbrev pub Apart : {A : Type 0} → Option (A → ℕ) → (ℕ → A) → ℕ → A → Type 0
Apart none f n item = Unit
Apart (some get) f n item = (i : ℕ) → i < n → get (f i) ≢ get item

Tracked-write_end :
    {A : Type 0} (get_info : Option (A → ℕ)) (f : ℕ → A) (n : ℕ) (infos : ℕ → ℕ) (item : A)
    → Apart get_info f n item
    → Tracked get_info f n infos
    → Tracked get_info (update f n item) (n + 1) (set_info get_info item n infos)
Tracked-write_end none f n infos item apart t = tt
Tracked-write_end (some get) f n infos item apart t = λ i h. ground (arith, apart i, t i)

-- heap_resize makes room for one more item, and changes nothing but the size of the block
grow_lem :
    {A : Type 0} (h : Heap A)
    → h.size ≤ h.heap_size
    → h.heap_size ≤ h.size + block_size
    → (h.size < (grow h).heap_size)
      × ((grow h).heap_size ≤ h.size + 1 + block_size)
      × ((grow h).heap ≡ h.heap)
      × ((grow h).size ≡ h.size)
      × ((grow h).get_info ≡ h.get_info)
      × ((grow h).infos ≡ h.infos)
unfolding grow heap_resize
grow_lem h p q = ground arith

module _ {A : Type 0} (cmp : A → A → Ordering) (laws : IsPreorder cmp) where
  pub heap_create-empty :
      (memory : ℕ → A) (infos : ℕ → ℕ)
      → ((heap_create memory infos).size ≡ 0) × ((heap_create memory infos).get_info ≡ none)
  unfolding heap_create
  heap_create-empty memory infos = (refl, refl)

  -- heap_create gives an empty heap in order
  pub heap_create-IsValid :
      (memory : ℕ → A) (infos : ℕ → ℕ) → IsValid cmp (heap_create memory infos)
  unfolding heap_create
  heap_create-IsValid memory infos = record {
    fits = omega arith;
    tight = omega arith;
    order = λ c p q r. absurd (omega arith);
    tracked = tt;
  }

  -- `h` in a block of `room` cells, with the item written behind the live ones
  abbrev appended : Heap A → ℕ → A → Heap A
  appended h room item = record {
    heap = update h.heap h.size item;
    heap_size = room;
    size = h.size + 1;
    get_info = h.get_info;
    infos = set_info h.get_info item h.size h.infos;
  }

  appended-UpInv :
      (h : Heap A) (item : A) (room : ℕ)
      → IsHeapFrom cmp 0 h.heap h.size
      → UpInv cmp (appended h room item).heap (h.size + 1) (h.size + 1 - 1)
  appended-UpInv h item room order = record {
    inside = omega arith;
    edges = λ c p q r. ground (arith, order c);
    bridged = λ c p q r s t. absurd (omega arith);
  }

  -- what heap_insert returns: a valid heap with the item added, and its size
  pub record Inserted (h : Heap A) (item : A) (r : Heap A × ℕ) : Type 0 where
    pub valid : IsValid cmp r.0
    pub perm : Perm (items r.0.heap r.0.size) (item ∷ items h.heap h.size)
    pub size : r.0.size ≡ h.size + 1
    pub count : r.1 ≡ h.size + 1
    pub get_info : r.0.get_info ≡ h.get_info

  -- heap_insert on a valid heap adds exactly the item, keeps the heap valid and returns the new size
  pub heap_insert_lem :
      (h : Heap A) (item : A)
      → IsValid cmp h
      → Apart h.get_info h.heap h.size item
      → Returns (Inserted h item) (heap_insert cmp h item)
  unfolding heap_insert
  heap_insert_lem h item v apart =
      let (room, tight, heap, size, get_info, infos) = grow_lem h v.fits v.tight in
      rw
        (
          size,
          heap_move-ok (record (grow h) { size = h.size + 1 }) h.size item room,
          heap,
          get_info,
          infos,
        )
        (Returns-bind
          (heap_up_lem cmp laws (appended h (grow h).heap_size item) (h.size + 1 - 1) (omega arith)
            (appended-UpInv h item (grow h).heap_size v.order))
          λ (g, m) (order, kept). returns (record {
            valid = record {
              fits = omega (arith, kept.size, kept.heap_size);
              tight = omega (arith, kept.size, kept.heap_size);
              order = order;
              tracked =
                  kept.tracked
                    (Tracked-write_end h.get_info h.heap h.size h.infos item apart v.tracked);
            };
            perm = rw items-write_end at kept.perm;
            size = kept.size;
            count = kept.size;
            get_info = kept.get_info;
          }))

  -- heap_build_heap orders any cells
  heap_build_heap_lem :
      (h : Heap A) → h.size ≤ h.heap_size → Returns (Sunk cmp laws 0 h) (heap_build_heap cmp h)
  unfolding heap_build_heap
  heap_build_heap_lem h fits =
      Returns-if (ltb 1 h.size)
        (λ e. build_loop_lem cmp laws (h.size / 2) 0 h fits (λ c p q r. absurd (omega arith)))
        (λ e. returns (λ c p q r. absurd (ground arith), Kept-refl h))

  -- the block of heap_build, after `memcpy`
  abbrev filled : (ℕ → A) → (ℕ → ℕ) → (ℕ → A) → ℕ → Heap A
  filled memory infos array n =
      let h = heap_resize (heap_create memory infos) n in
      record h { heap = λ i. if ltb i n then array i else h.heap i; size = n }

  filled_bounds :
      (memory : ℕ → A) (infos : ℕ → ℕ) (array : ℕ → A) (n : ℕ)
      → (n ≤ (filled memory infos array n).heap_size)
        × ((filled memory infos array n).heap_size ≤ n + block_size)
        × ((filled memory infos array n).get_info ≡ none)
  unfolding heap_resize heap_create
  filled_bounds memory infos array n = ground arith

  -- heap_build on any array gives a valid heap of the array's items
  pub heap_build_lem :
      (memory : ℕ → A) (infos : ℕ → ℕ) (array : ℕ → A) (n : ℕ)
      → Returns
          (λ g. IsValid cmp g × Perm (items g.heap g.size) (items array n) × (g.size ≡ n))
          (heap_build cmp memory infos array n)
  unfolding heap_build
  heap_build_lem memory infos array n =
      let h = filled memory infos array n in
      let (fits, tight, plain) = filled_bounds memory infos array n in
      Returns-bind (heap_build_heap_lem h fits) λ (g, m) (order, kept). returns (
        record {
          fits = omega (arith, kept.size, kept.heap_size);
          tight = omega (arith, kept.size, kept.heap_size);
          order = order;
          tracked = kept.tracked (rw plain tt);
        },
        rw (items-congr n h.heap array (λ i p. ground arith)) at kept.perm,
        kept.size,
      )
