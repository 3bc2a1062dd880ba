-- ===== src/Timer/Tests.antt =====
-- Runs of timer.c with two events in the queue.
use mathlib.Core.List.{Mem, Perm}
use bflib.Base.{
  ℕ, ◌+◌, ◌*◌, ◌≡◌, ◌⊎◌, refl, true, none, some, List, [], All, arith, ◌==◌, if◌then◌else◌,
}
use bflib.Run.{Returns}
use bflib.Heap.Memory.{items-All}
use bflib.TailQueue.Sequence.{sequence}
use bflib.LinkedList.Walks.{Contains}
use bflib.Timer.{
  Timeval, Event, Timer, etimer_event_cmp, etimer_extract_ready, etimer_add, etimer_cancel,
  etimer_destroy, etimer_calc_timeout, etimer_mafter, etimer_create, timeradd,
}
use bflib.Timer.Order.{no_later}
use bflib.Timer.Ready.{Extracted, InOrder, due, etimer_extract_ready_lem}
use bflib.Timer.Queue.{
  IsTimer, queued, calls_of, Added, Canceled, etimer_add_lem, etimer_cancel_lem, etimer_destroy_lem,
}
use bflib.Timer.Timeout.{fits, micros, millis_until, etimer_calc_timeout_lem, etimer_mafter_lem}
use bflib.Timer.Loop.{Place, System, start, Reach, here, next, initial}
use bflib.Timer.Loop.Once.{IsAccounted, etimer_run-IsAccounted}
use bflib.Timer.Loop.Due.{IsCalled, wake-Reach}

abbrev seconds : ℕ → Timeval
seconds n = record { tv_sec = n; tv_usec = 0 }

abbrev event_at : ℕ → ℕ → Event
event_at ref sec = record { ref = ref; deadline = seconds sec; cb = 1; userdata = 2 }

-- events at 10 and at 20 seconds
abbrev sample : Timer
sample = record {
  queue = record {
    heap = λ i. if i == 0 then event_at 100 10 else event_at 200 20;
    heap_size = 128;
    size = 2;
    get_info = none;
    infos = λ i. 0;
  };
  run = true;
  signals = 0;
}

sample-IsTimer : IsTimer sample
unfolding etimer_event_cmp
sample-IsTimer = record {
  valid = record {
    fits = omega arith;
    tight = omega arith;
    order = λ c p q r. ground arith;
    tracked = tt;
  };
  no_info = refl;
}

-- 100000 milliseconds after 3.5 seconds, as etimer_mafter writes it
far_deadline :
    timeradd
      (record { tv_sec = 3; tv_usec = 500000 })
      (record { tv_sec = 0; tv_usec = 100000 * 1000 })
    ≡ record { tv_sec = 4; tv_usec = 99500000 }
unfolding timeradd
far_deadline = refl

etimer_extract_ready_lem_example :
    Returns
      (λ (ready, after).
        (taken : List Event) × Contains {queue = sequence} ready taken
        × Extracted (seconds 15) sample.queue after.queue taken
        × (after.run ≡ true)
        × (after.signals ≡ 0))
      (etimer_extract_ready (seconds 15) sample)
etimer_extract_ready_lem_example = etimer_extract_ready_lem (seconds 15) sample sample-IsTimer.valid

etimer_add_lem_example :
    Returns
      (λ (ref, after). (ref ≡ 300) × Added sample (event_at 300 5) after)
      (etimer_add sample (event_at 300 5))
etimer_add_lem_example = etimer_add_lem sample (event_at 300 5) sample-IsTimer

etimer_cancel_lem_example :
    Returns (λ r. Canceled sample 200 r × IsTimer r.2) (etimer_cancel sample 200)
etimer_cancel_lem_example = etimer_cancel_lem sample 200 sample-IsTimer

etimer_destroy_lem_example :
    Returns
      (λ calls.
        (es : List Event) × (calls ≡ calls_of true es) × Perm es (queued sample) × InOrder es)
      (etimer_destroy sequence sample)
etimer_destroy_lem_example = etimer_destroy_lem sequence sample sample-IsTimer

etimer_calc_timeout_lem_example :
    Returns
      (λ timeout.
        ((queued sample ≡ []) × (timeout ≡ none))
        ⊎ ((e : Event) × Mem e (queued sample)
            × (timeout ≡ some (millis_until (seconds 7) e))
            × All (λ other. no_later e other ≡ true) (queued sample)))
      (etimer_calc_timeout (seconds 7) sample)
etimer_calc_timeout_lem_example =
    etimer_calc_timeout_lem (seconds 7) sample sample-IsTimer (omega arith)
      (items-All (fits (seconds 7)) sample.queue.heap 2 (λ i p. ground arith))

etimer_mafter_lem_example :
    Returns
      (λ (result, after).
        (e : Event) × Added sample e after
        × (result ≡ e.ref)
        × (micros e.deadline ≡ micros (seconds 3) + 100000 * 1000)
        × (due (seconds 5) e ≡ true))
      (etimer_mafter 300 (seconds 3) sample 100000 1 2)
etimer_mafter_lem_example =
    etimer_mafter_lem 300 (seconds 3) (seconds 5) sample 100000 1 2 sample-IsTimer (omega arith)
      (omega arith) (omega arith) (omega arith)

abbrev blank : ℕ → Event
blank i = event_at 0 0

abbrev started : System
started = record (initial blank (λ i. 0)) {
  timer = record (etimer_create blank (λ i. 0)) { run = true };
  place = Place.polling;
}

started-Reach : Reach sequence (initial blank (λ i. 0)) started
started-Reach = next here (start refl refl)

etimer_run-IsAccounted_example : IsAccounted started
etimer_run-IsAccounted_example =
    etimer_run-IsAccounted sequence blank (λ i. 0) started started-Reach

abbrev in_wait : System
in_wait = record { timer = sample; place = Place.waiting; added = queued sample; called = [] }

wake-Reach_example : (t : System) × Reach sequence in_wait t × IsCalled (seconds 15) in_wait t
wake-Reach_example = wake-Reach sequence (seconds 15) true in_wait sample-IsTimer refl refl
