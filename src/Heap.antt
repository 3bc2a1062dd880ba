-- ===== src/Heap.antt =====
-- heap.c: a binary heap in a growing array of pointers, with optional back positions.
-- The array is a memory `heap : ℕ → A` of which the first `heap_size` cells are allocated; a read
-- or write of another cell is a fault. The `struct HeapInfo` of the items lie in a store `infos`
-- from their address to `pos`; the accessor `get_info` gives the address of an item's info. `cmp`
-- gives the sign of the C result. NULL is `none`. A `long` index stays below twice the number of
-- items plus two, so it does not overflow.
pub mod Calls
pub mod Order
pub mod Memory
pub mod Up
pub mod Down
pub mod Hipify
pub mod Accessor
use Prim.Native.Nat.{Ordering}
use bflib.Base.{
  ℕ, zero, suc, ◌+◌, ◌-◌, ◌*◌, ◌/◌, ◌%◌, Bool, true, false, ◌&&◌, not, Option, none, some, List, [],
  ◌∷◌, ltb, leb, ◌==◌, if◌then◌else◌,
}
use bflib.Run.{Run, ok, fault, out_of_fuel, ◌>>=◌}

pub record Heap (A : Type 0) : Type 0 where
  pub heap : ℕ → A
  pub heap_size : ℕ
  pub size : ℕ
  pub get_info : Option (A → ℕ)
  pub infos : ℕ → ℕ

abbrev pub block_size : ℕ
block_size = 128

abbrev pub parent_pos : ℕ → ℕ
parent_pos pos = (pos - 1) / 2

abbrev pub left_pos : ℕ → ℕ
left_pos pos = pos * 2 + 1

abbrev pub right_pos : ℕ → ℕ
right_pos pos = pos * 2 + 2

abbrev pub is_neg : Ordering → Bool
is_neg Ordering.lt = true
is_neg _ = false

abbrev pub is_pos : Ordering → Bool
is_pos Ordering.gt = true
is_pos _ = false

-- one cell of a memory written
abbrev pub update {ℓ} : {B : Type ℓ} → (ℕ → B) → ℕ → B → ℕ → B
update f i v j = if i == j then v else f j

-- `info->pos = pos`, if there is an accessor
abbrev pub set_info : {A : Type 0} → Option (A → ℕ) → A → ℕ → (ℕ → ℕ) → ℕ → ℕ
set_info none item pos infos = infos
set_info (some get) item pos infos = update infos (get item) pos

module _ {A : Type 0} where
  -- `malloc` leaves the cells as the memory happens to be
  pub heap_create : (memory : ℕ → A) → (infos : ℕ → ℕ) → Heap A
  heap_create memory infos = record {
    heap = memory;
    heap_size = block_size;
    size = 0;
    get_info = none;
    infos = infos;
  }

  pub heap_size : Heap A → ℕ
  heap_size h = h.size

  -- `heap->heap[i]`
  pub load : Heap A → ℕ → Run A
  load h i = if ltb i h.heap_size then ok (h.heap i) else fault

  pub heap_move : Heap A → ℕ → A → Run (Heap A)
  heap_move h pos item =
      if ltb pos h.heap_size
      then ok
          (record h { heap = update h.heap pos item; infos = set_info h.get_info item pos h.infos })
      else fault

  -- `realloc` keeps the cells that lie in both blocks
  pub heap_resize : Heap A → ℕ → Heap A
  heap_resize h size =
      let heap_size = size + block_size - size % block_size in
      if h.heap_size == heap_size then h else record h { heap_size = heap_size }

  -- `tmp = heap[a]; heap_move(a, heap[b]); heap_move(b, tmp)`, the step of both sift loops
  pub exchange : Heap A → ℕ → ℕ → Run (Heap A)
  exchange h a b = do tmp ← load h a; item ← load h b; h ← heap_move h a item; heap_move h b tmp

  pub heap_min : Heap A → Run (Option A)
  heap_min h = if ltb 0 h.size then (do item ← load h 0; ok (some item)) else ok none

  -- the items handed to the destructor, in order; `live` counts the rounds left
  destroy_loop : Heap A → ℕ → ℕ → Run (List A)
  destroy_loop h zero i = ok []
  destroy_loop h (suc live) i = do
    item ← load h i
    rest ← destroy_loop h live (i + 1)
    ok (item ∷ rest)

  pub heap_destroy : Heap A → Bool → Run (List A)
  unfolding destroy_loop
  heap_destroy h destructor = if destructor then destroy_loop h h.size 0 else ok []

  accessor_loop : (A → ℕ) → Heap A → ℕ → ℕ → Run (Heap A)
  accessor_loop get h zero i = ok h
  accessor_loop get h (suc rounds) i = do
    item ← load h i
    accessor_loop get (record h { infos = update h.infos (get item) i }) rounds (i + 1)

  pub heap_set_info_accessor : Heap A → Option (A → ℕ) → Run (Heap A)
  heap_set_info_accessor h none = ok (record h { get_info = none })
  heap_set_info_accessor h (some get) =
      accessor_loop get (record h { get_info = some get }) h.size 0

module _ {A : Type 0} (cmp : A → A → Ordering) where
  -- `n` counts the exchanges
  up_loop : ℕ → Heap A → ℕ → ℕ → Run (Heap A × ℕ)
  up_loop zero h pos n = out_of_fuel
  up_loop (suc fuel) h pos n =
      let parent = parent_pos pos in
      let rise = exchange h parent pos >>= λ h. up_loop fuel h parent (n + 1) in
      let round : Run (Heap A × ℕ) = do
        x ← load h pos
        y ← load h parent
        if is_neg (cmp x y) then rise else ok (h, n)
      in if ltb 0 pos then round else ok (h, n)

  pub heap_up : Heap A → ℕ → Run (Heap A × ℕ)
  heap_up h pos = up_loop (pos + 1) h pos 0

  -- the child that the loop compares with: the left one if it is less or stands alone
  pub down_child : Heap A → ℕ → Run ℕ
  down_child h pos =
      if ltb (right_pos pos) h.size
      then (do
        x ← load h (left_pos pos)
        y ← load h (right_pos pos)
        ok (if is_neg (cmp x y) then left_pos pos else right_pos pos))
      else ok (left_pos pos)

  down_loop : ℕ → Heap A → ℕ → ℕ → Run (Heap A × ℕ)
  down_loop zero h pos n = out_of_fuel
  down_loop (suc fuel) h pos n = down_child h pos >>= λ down.
      let sink = exchange h down pos >>= λ h. down_loop fuel h down (n + 1) in
      let round : Run (Heap A × ℕ) = do
        x ← load h down
        y ← load h pos
        if is_neg (cmp x y) then sink else ok (h, n)
      in if ltb down h.size then round else ok (h, n)

  pub heap_down : Heap A → ℕ → Run (Heap A × ℕ)
  heap_down h pos = down_loop (h.size + 1) h pos 0

  pub heap_hipify_pos : Heap A → ℕ → Run (Heap A × ℕ)
  heap_hipify_pos h pos = do (h, n) ← heap_up h pos; if n == 0 then heap_down h pos else ok (h, n)

  -- the `for` counts down from size/2 - 1; `i` is one more than its variable
  pub build_loop : Heap A → ℕ → ℕ → Run (Heap A × ℕ)
  build_loop h zero n = ok (h, n)
  build_loop h (suc i) n = heap_down h i >>= λ (h, m). build_loop h i (n + m)
