-- ===== src/Timer/Order.antt =====
-- The order of events by deadline, and the events of a heap as a list (timer.c).
use bflib.Base.{◌≡◌, Bool, true, not, arith}
use bflib.Heap.Order.{IsPreorder, Le}
use bflib.Timer.{earlier, Event, etimer_event_cmp}

pub etimer_event_cmp-IsPreorder : IsPreorder etimer_event_cmp
unfolding etimer_event_cmp
etimer_event_cmp-IsPreorder = record {
  flip = λ x y. ground arith;
  trans = λ x y z p q. ground arith;
}

-- `x` comes no later than `y`
abbrev pub no_later : Event → Event → Bool
no_later x y = not (earlier y.deadline x.deadline)

pub Le-no_later : (x y : Event) → Le etimer_event_cmp x y → no_later x y ≡ true
unfolding etimer_event_cmp
Le-no_later x y p = ground arith
