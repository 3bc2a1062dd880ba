-- ===== src/Timer/Timeout.antt =====
-- timer.c: how long etimer_run waits, and the deadlines that the calls make.
use mathlib.Core.List.{Mem}
use bflib.Base.{
  ℕ, ◌+◌, ◌-◌, ◌*◌, ◌/◌, ◌%◌, ◌^◌, ◌≤◌, ◌<◌, ◌≡◌, ◌⊎◌, refl, ◌∙◌, Bool, true, false, ◌&&◌, none,
  some, [], All, arith, Bool-cases, inl, inr, if◌then◌else◌, ltb,
}
use bflib.Run.{ok, Returns, returns, Returns-map}
use bflib.Heap.Memory.{All-items, Mem-items}
use bflib.Heap.Calls.Remove.{heap_min_lem, heap_min-empty}
use bflib.Timer.{
  Timeval, earlier, timeradd, timersub, Event, Timer, etimer_event_cmp, etimer_event_create,
  int_timeout, time_ahead, timeout_until, etimer_calc_timeout, etimer_mafter,
}
use bflib.Timer.Order.{etimer_event_cmp-IsPreorder, no_later}
use bflib.Timer.Ready.{due}
use bflib.Timer.Queue.{IsTimer, queued, no_items, root_first, Added, etimer_add_lem}

abbrev pub micros : Timeval → ℕ
micros t = t.tv_sec * 1000000 + t.tv_usec

-- the milliseconds from `now` to a deadline, rounded up, and 0 for one that is past
abbrev pub millis_until : Timeval → Event → ℕ
millis_until now event = (micros event.deadline - micros now + 999) / 1000

-- less than a second in `tv_usec`, and a time to wait that fits an `int`
abbrev pub fits : Timeval → Event → Bool
fits now event = ltb event.deadline.tv_usec 1000000 && ltb (millis_until now event) (2 ^ 31)

int_timeout-small : (timeout : ℕ) → timeout < 2 ^ 31 → int_timeout timeout ≡ timeout
unfolding int_timeout
int_timeout-small timeout h = ground arith

timersub-millis :
    (a b : Timeval)
    → a.tv_usec < 1000000
    → b.tv_usec < 1000000
    → earlier a b ≡ false
    → (timersub a b).tv_sec * 1000
        + (timersub a b).tv_usec / 1000
        + (if ltb 0 ((timersub a b).tv_usec % 1000) then 1 else 0)
      ≡ (micros a - micros b + 999) / 1000
unfolding timersub
timersub-millis a b p q h = ground arith

past-millis :
    (now : Timeval) (event : Event)
    → now.tv_usec < 1000000
    → event.deadline.tv_usec < 1000000
    → earlier event.deadline now ≡ true
    → millis_until now event ≡ 0
past-millis now event p q h = ground arith

timeout_until_lem :
    (now : Timeval) (event : Event)
    → now.tv_usec < 1000000
    → fits now event ≡ true
    → timeout_until now (some event) ≡ some (millis_until now event)
unfolding timeout_until
timeout_until_lem now event p h =
    let q : event.deadline.tv_usec < 1000000 = ground arith in
    let small : millis_until now event < 2 ^ 31 = ground arith in
    elim (Bool-cases (earlier event.deadline now)) [
      | inl e ↦ rw (e, past-millis now event p q e) refl
      | inr e ↦
          rw
            (
              e,
              timersub-millis event.deadline now q p e,
              int_timeout-small (millis_until now event) small,
            )
            refl
    ]

-- If the microseconds of the times are below a second, and the times to wait fit an `int`,
-- etimer_calc_timeout of a valid timer is -1 if the queue is empty, and otherwise there is an event
-- in the queue, with a deadline no later than that of any other, and it is the milliseconds to that
-- deadline, rounded up, or 0 if the deadline is past.
pub etimer_calc_timeout_lem :
    (now : Timeval) (timer : Timer)
    → IsTimer timer
    → now.tv_usec < 1000000
    → All (λ e. fits now e ≡ true) (queued timer)
    → Returns
        (λ timeout.
          ((queued timer ≡ []) × (timeout ≡ none))
          ⊎ ((e : Event) × Mem e (queued timer)
              × (timeout ≡ some (millis_until now e))
              × All (λ other. no_later e other ≡ true) (queued timer)))
        (etimer_calc_timeout now timer)
unfolding etimer_calc_timeout
etimer_calc_timeout_lem now timer t p all = elim (Bool-cases (ltb 0 timer.queue.size)) [
  | inl more ↦
      let first = All-items (fits now) timer.queue.heap timer.queue.size 0 (ground arith) all in
      rw
        (
          heap_min_lem etimer_event_cmp etimer_event_cmp-IsPreorder timer.queue t.valid
              (ground arith),
          timeout_until_lem now (timer.queue.heap 0) p first,
        )
        (returns (
          inr (
            timer.queue.heap 0,
            Mem-items timer.queue.heap timer.queue.size 0 (ground arith),
            refl,
            root_first timer.queue t.valid,
          )))
  | inr empty ↦
      let none_left : timer.queue.size ≡ 0 = ground arith in
      rw
        (
          heap_min-empty etimer_event_cmp etimer_event_cmp-IsPreorder timer.queue none_left,
          timeout_until,
        )
        (returns (inl (no_items timer.queue.heap timer.queue.size none_left, refl)))
]

pub timeradd-micros : (a b : Timeval) → micros (timeradd a b) ≡ micros a + micros b
unfolding timeradd
timeradd-micros a b = ground arith

pub timeradd-usec :
    (a b : Timeval) → a.tv_usec < 1000000 → b.tv_usec < 1000000 → (timeradd a b).tv_usec < 1000000
unfolding timeradd
timeradd-usec a b p q = ground arith

pub earlier-micros :
    (a b : Timeval)
    → a.tv_usec < 1000000
    → b.tv_usec < 1000000
    → earlier a b ≡ ltb (micros a) (micros b)
earlier-micros a b p q = ground arith

timeradd-seconds :
    (now later : Timeval) (usec : ℕ)
    → now.tv_usec < 1000000
    → now.tv_sec + 2 ≤ later.tv_sec
    → earlier (timeradd now (record { tv_sec = 0; tv_usec = usec })) later ≡ true
unfolding timeradd
timeradd-seconds now later usec p h = ground arith

time_ahead_lem :
    (now ahead : Timeval)
    → (timeradd now ahead).tv_sec < 2 ^ 63
    → now.tv_usec + ahead.tv_usec < 2 ^ 63
    → time_ahead now ahead ≡ ok (timeradd now ahead)
unfolding time_ahead
time_ahead_lem now ahead p q = ground arith

timeradd-sec : (a b : Timeval) → (timeradd a b).tv_sec ≤ a.tv_sec + b.tv_sec + 1
unfolding timeradd
timeradd-sec a b = ground arith

-- If the time has less than a second in its microseconds, and the microseconds that it computes and
-- the seconds after the next one fit a `long`, etimer_mafter on a valid timer puts an event in the
-- queue whose deadline lies `msec` milliseconds ahead; but from the second after the next one on it
-- counts as due, whatever `msec` is.
pub etimer_mafter_lem :
    (ref : ℕ) (now later : Timeval) (timer : Timer) (msec cb ud : ℕ)
    → IsTimer timer
    → now.tv_usec < 1000000
    → now.tv_usec + msec * 1000 < 2 ^ 63
    → later.tv_sec < 2 ^ 63
    → now.tv_sec + 2 ≤ later.tv_sec
    → Returns
        (λ (result, after).
          (e : Event) × Added timer e after
          × (result ≡ e.ref)
          × (micros e.deadline ≡ micros now + msec * 1000)
          × (due later e ≡ true))
        (etimer_mafter ref now timer msec cb ud)
unfolding etimer_mafter etimer_event_create
etimer_mafter_lem ref now later timer msec cb ud t p fits last h =
    let ahead : Timeval = record { tv_sec = 0; tv_usec = msec * 1000 } in
    let event = etimer_event_create ref (timeradd now ahead) cb ud in
    let small : (timeradd now ahead).tv_sec < 2 ^ 63 = omega (arith, timeradd-sec now ahead) in
    rw (time_ahead_lem now ahead small fits) (
      Returns-map (etimer_add_lem timer event t) λ (result, after) (same, added). (
        event,
        added,
        same,
        timeradd-micros now ahead ∙ omega arith,
        timeradd-seconds now later (msec * 1000) p h,
      ))
