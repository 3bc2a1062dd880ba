-- ===== src/Heap/Calls.antt =====
-- heap.c: the functions that callers use, over the sift loops.
pub mod Insert
pub mod Remove
pub mod Search
pub mod Check
mod Tests
use Prim.Native.Nat.{Ordering}
use bflib.Base.{
  ℕ, zero, suc, ◌+◌, ◌-◌, ◌/◌, Bool, true, false, ◌&&◌, not, Option, none, some, ltb, ◌==◌,
  if◌then◌else◌,
}
use bflib.Run.{Run, ok, ◌>>=◌}
use bflib.Heap.{
  Heap, block_size, parent_pos, left_pos, right_pos, is_neg, is_pos, heap_create, load, heap_move,
  heap_resize, heap_up, heap_down, heap_hipify_pos, build_loop,
}

module _ {A : Type 0} where
  -- `if( heap_size - size > HEAP_BLOCK_SIZE ) heap_resize(heap, size)`
  pub shrink : Heap A → Heap A
  shrink h = if ltb block_size (h.heap_size - h.size) then heap_resize h h.size else h

  -- `if( heap_size < size+1 ) heap_resize(heap, size+1)`
  pub grow : Heap A → Heap A
  grow h = if ltb h.heap_size (h.size + 1) then heap_resize h (h.size + 1) else h

module _ {A : Type 0} (cmp : A → A → Ordering) where
  pub heap_build_heap : Heap A → Run (Heap A × ℕ)
  heap_build_heap h = if ltb 1 h.size then build_loop cmp h (h.size / 2) 0 else ok (h, 0)

  -- `memcpy` writes the first `n` cells; the caller's array is the memory `array`
  pub heap_build : (memory : ℕ → A) → (infos : ℕ → ℕ) → (array : ℕ → A) → ℕ → Run (Heap A)
  heap_build memory infos array n = do
    let h = heap_resize (heap_create memory infos) n
    (h, _) ←
        heap_build_heap (record h { heap = λ i. if ltb i n then array i else h.heap i; size = n })
    ok h

  pub heap_insert : Heap A → A → Run (Heap A × ℕ)
  heap_insert h item = do
    let h = grow h
    let pos = h.size
    h ← heap_move (record h { size = h.size + 1 }) pos item
    (h, _) ← heap_up cmp h (h.size - 1)
    ok (h, h.size)

  -- the call on a heap that is not empty
  pub shift_first : Heap A → Run (Option A × Heap A)
  unfolding shrink
  shift_first h = do
    item ← load h 0
    let h = record h { size = h.size - 1 }
    last ← load h h.size
    h ← heap_move h 0 last
    (h, _) ← heap_down cmp h 0
    ok (some item, shrink h)

  pub heap_shift : Heap A → Run (Option A × Heap A)
  unfolding shift_first
  heap_shift h = if ltb 0 h.size then shift_first h else ok (none, h)

  -- the item of `pos` goes, and the last one takes its place
  pub refill : Heap A → ℕ → Run (Heap A)
  refill h pos =
      let inner : Run (Heap A) = do
        let h = record h { size = h.size - 1 }
        last ← load h h.size
        h ← heap_move h pos last
        (h, _) ← heap_hipify_pos cmp h pos
        ok h
      in if pos == h.size - 1 then ok (record h { size = h.size - 1 }) else inner

  -- a `pos` from the store is no less than 0
  pub heap_del_pos : Heap A → ℕ → Run (Option A × Heap A)
  unfolding refill shrink
  heap_del_pos h pos =
      let found : Run (Option A × Heap A) = do
        item ← load h pos
        h ← refill h pos
        ok (some item, shrink h)
      in if ltb pos h.size then found else ok (none, h)

  -- the search from cell `i`, with `rounds` cells left
  pub del_item_loop : (A → Bool) → Heap A → ℕ → ℕ → Run (Option A × Heap A)
  del_item_loop match h zero i = ok (none, h)
  del_item_loop match h (suc rounds) i =
      let later = del_item_loop match h rounds (i + 1) in
      load h i >>= λ x. if match x then heap_del_pos h i else later

  -- `match` is the C function at its pattern
  pub heap_del_item : Heap A → (A → Bool) → Run (Option A × Heap A)
  unfolding del_item_loop
  heap_del_item h match = del_item_loop match h h.size 0

  hipify_by : Option (A → ℕ) → Heap A → A → Run (Option A × Heap A)
  hipify_by none h item = ok (none, h)
  hipify_by (some get) h item = do
    (h, _) ← heap_hipify_pos cmp h (h.infos (get item))
    ok (some item, h)

  pub heap_hipify : Heap A → A → Run (Option A × Heap A)
  unfolding hipify_by
  heap_hipify h item = hipify_by h.get_info h item

  del_by : Option (A → ℕ) → Heap A → A → Run (Option A × Heap A)
  del_by none h item = ok (none, h)
  del_by (some get) h item = heap_del_pos h (h.infos (get item))

  pub heap_del : Heap A → A → Run (Option A × Heap A)
  unfolding del_by
  heap_del h item = del_by h.get_info h item

  info_agrees : Option (A → ℕ) → (ℕ → ℕ) → A → ℕ → Bool
  info_agrees none infos item i = true
  info_agrees (some get) infos item i = infos (get item) == i

  -- the tests of one cell, each made only if those before it passed
  infixr 30 ◌and_then◌
  abbrev ◌and_then◌ : Run Bool → Run Bool → Run Bool
  r and_then s = r >>= λ passed. if passed then s else ok false

  -- a test of cell `j`, made if `guard` holds
  check_edge : Heap A → Bool → ℕ → (A → Bool) → Run Bool
  check_edge h guard j test = if guard then (load h j >>= λ y. ok (test y)) else ok true

  pub check_pos : Heap A → ℕ → Run Bool
  unfolding info_agrees check_edge
  check_pos h i = load h i >>= λ x.
      ok (info_agrees h.get_info h.infos x i)
      and_then check_edge h (ltb 0 (parent_pos i)) (parent_pos i) (λ y. not (is_pos (cmp y x)))
      and_then check_edge h (ltb (left_pos i) h.size) (left_pos i) (λ y. not (is_neg (cmp y x)))
      and_then check_edge h (ltb (right_pos i) h.size) (right_pos i) (λ y. not (is_neg (cmp y x)))

  pub check_loop : Heap A → ℕ → ℕ → Run Bool
  check_loop h zero i = ok true
  check_loop h (suc rounds) i = check_pos h i and_then check_loop h rounds (i + 1)

  pub heap_check_properties : Heap A → Run Bool
  unfolding check_pos check_loop
  heap_check_properties h = check_loop h h.size 0
