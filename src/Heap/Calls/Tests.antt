-- ===== src/Heap/Calls/Tests.antt =====
-- Runs of heap.c, and its theorems at a heap of three numbers.
use Prim.Native.Nat.{compare}
use mathlib.Core.List.{Perm}
use bflib.Base.{ℕ, ◌-◌, ◌≡◌, ◌↔◌, refl, true, false, Option, none, some, arith, ◌==◌, if◌then◌else◌}
use bflib.Run.{Run, ok, ◌>>=◌, Returns}
use bflib.Heap.{
  Heap, heap_down, down_loop, down_child, heap_up, up_loop, load, heap_move, exchange, heap_resize,
}
use bflib.Heap.Order.{IsPreorder, IsHeapFrom, SpotInv}
use bflib.Heap.Memory.{items, Tracked}
use bflib.Heap.Calls.{
  heap_build, heap_insert, grow, heap_shift, heap_del_pos, heap_check_properties, info_agrees,
  check_edge,
}
use bflib.Heap.Calls.Insert.{IsValid, Inserted, heap_insert_lem, heap_build_lem}
use bflib.Heap.Calls.Remove.{Shifted, Removed, heap_shift_lem, heap_del_pos_lem}
use bflib.Heap.Calls.Check.{heap_check_properties_lem}

compare-IsPreorder : IsPreorder compare
compare-IsPreorder = record { flip = λ x y. ground arith; trans = λ x y z p q. ground arith }

-- the numbers 1, 3, 2, each its own info
abbrev sample : Heap ℕ
sample = record {
  heap = λ i. if i == 0 then 1 else if i == 1 then 3 else 2;
  heap_size = 128;
  size = 3;
  get_info = some (λ x. x);
  infos = λ x. if x == 1 then 0 else if x == 3 then 1 else 2;
}

sample-IsValid : IsValid compare sample
sample-IsValid = record {
  fits = omega arith;
  tight = omega arith;
  order = λ c p q r. ground arith;
  tracked = λ i p. ground arith;
}

abbrev shifts : Run (Option ℕ × Option ℕ × Option ℕ × Option ℕ × ℕ)
shifts = do
  (x, h) ← heap_shift compare sample
  (y, h) ← heap_shift compare h
  (z, h) ← heap_shift compare h
  (w, h) ← heap_shift compare h
  ok (x, y, z, w, h.size)

shifts_in_order : shifts ≡ ok (some 1, some 2, some 3, none, 0)
unfolding heap_shift heap_down down_loop down_child load heap_move exchange heap_resize
shifts_in_order = refl

abbrev grown : Run (ℕ × ℕ × ℕ)
grown = do
  (h, n) ← heap_insert compare (record sample { heap_size = 3 }) 0
  ok (h.heap 0, h.heap_size, n)

insert_grows : grown ≡ ok (0, 128, 4)
unfolding heap_insert heap_up up_loop load heap_move exchange heap_resize grow
insert_grows = refl

heap_insert_lem_example :
    Returns (Inserted compare compare-IsPreorder sample 0) (heap_insert compare sample 0)
heap_insert_lem_example =
    heap_insert_lem compare compare-IsPreorder sample 0 sample-IsValid (λ i p. ground arith)

heap_build_lem_example :
    Returns
      (λ g. IsValid compare g × Perm (items g.heap g.size) (items (λ i. 9 - i) 5) × (g.size ≡ 5))
      (heap_build compare (λ i. 0) (λ i. 0) (λ i. 9 - i) 5)
heap_build_lem_example = heap_build_lem compare compare-IsPreorder (λ i. 0) (λ i. 0) (λ i. 9 - i) 5

heap_shift_lem_example :
    Returns (Shifted compare compare-IsPreorder sample) (heap_shift compare sample)
heap_shift_lem_example =
    heap_shift_lem compare compare-IsPreorder sample sample-IsValid (omega arith)

heap_del_pos_lem_example :
    Returns
      (λ (x, g). (x ≡ some 3) × Removed compare compare-IsPreorder sample 3 g)
      (heap_del_pos compare sample 1)
heap_del_pos_lem_example =
    heap_del_pos_lem compare compare-IsPreorder sample 1 sample-IsValid (omega arith)

-- the number 5 stands at the root, out of order
abbrev raised : Heap ℕ
raised = record sample {
  heap = λ i. if i == 0 then 5 else if i == 1 then 3 else 2;
  infos = λ x. if x == 5 then 0 else if x == 3 then 1 else 2;
}

raised-SpotInv : SpotInv compare raised.heap 3 0
raised-SpotInv = record {
  inside = omega arith;
  edges = λ c p q r s. ground arith;
  bridged = λ c p q r s t. absurd (omega arith);
}

heap_check_properties_lem_example :
    Returns
      (λ b.
        (b ≡ true)
        ↔ (IsHeapFrom compare 0 raised.heap 3 × Tracked raised.get_info raised.heap 3 raised.infos))
      (heap_check_properties compare raised)
heap_check_properties_lem_example =
    heap_check_properties_lem compare compare-IsPreorder raised (omega arith)

raised_rejected : heap_check_properties compare raised ≡ ok false
unfolding heap_check_properties check_edge load info_agrees
raised_rejected = refl
