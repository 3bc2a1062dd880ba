-- ===== src/Timer.antt =====
-- timer.c: events with deadlines in a heap, made by the loop of etimer_run or cancelled. A time is
-- not negative, and timercmp, timeradd and timersub are the macros of sys/time.h. An event is its
-- address with what is there; malloc gives the address, and gettimeofday the time `now`. Of the
-- pipe and epoll only the number of bytes in the pipe is kept. A function that takes the lock and
-- gives it back is one step; what goes on in etimer_run between its steps is in Timer/Loop.
pub mod Order
pub mod Ready
pub mod Queue
pub mod Loop
pub mod Timeout
mod Tests
use Prim.Native.Nat.{Ordering}
use bflib.Base.{
  ℕ, zero, suc, ◌+◌, ◌-◌, ◌*◌, ◌/◌, ◌%◌, ◌^◌, Bool, true, false, Option, none, some, List, [], ◌∷◌,
  ◌++◌, ltb, leb, ◌==◌, ◌&&◌, if◌then◌else◌,
}
use bflib.Run.{Run, ok, fault, out_of_fuel, ◌>>=◌}
use bflib.Heap.{Heap, heap_create, heap_size, heap_min, heap_destroy}
use bflib.Heap.Calls.{heap_insert, heap_shift, heap_del_item}
use bflib.TailQueue.{TailQueue}
use bflib.LinkedList.{
  LinkedList, loop, list_create, list_append, list_iterator_get_value, list_destroy,
}

pub record Timeval : Type 0 where
  pub tv_sec : ℕ
  pub tv_usec : ℕ

-- `timercmp(a, b, <)`
abbrev pub earlier : Timeval → Timeval → Bool
earlier a b = if a.tv_sec == b.tv_sec then ltb a.tv_usec b.tv_usec else ltb a.tv_sec b.tv_sec

pub timeradd : Timeval → Timeval → Timeval
timeradd a b =
    let sec = a.tv_sec + b.tv_sec in
    let usec = a.tv_usec + b.tv_usec in
    if leb 1000000 usec
    then record { tv_sec = sec + 1; tv_usec = usec - 1000000 }
    else record { tv_sec = sec; tv_usec = usec }

-- of a time that is no earlier than the one taken off
pub timersub : Timeval → Timeval → Timeval
timersub a b =
    if ltb a.tv_usec b.tv_usec
    then record { tv_sec = a.tv_sec - b.tv_sec - 1; tv_usec = a.tv_usec + 1000000 - b.tv_usec }
    else record { tv_sec = a.tv_sec - b.tv_sec; tv_usec = a.tv_usec - b.tv_usec }

-- `ref` is the address
pub record Event : Type 0 where
  pub ref : ℕ
  pub deadline : Timeval
  pub cb : ℕ
  pub userdata : ℕ

pub record Timer : Type 0 where
  pub queue : Heap Event
  pub run : Bool
  -- the bytes in the pipe
  pub signals : ℕ

-- a call of the event's `cb` with the event and its `userdata`
pub record Call : Type 0 where
  pub event : Event
  pub canceled : Bool

pub etimer_event_cmp : Event → Event → Ordering
etimer_event_cmp e1 e2 =
    if earlier e1.deadline e2.deadline
    then Ordering.lt
    else if earlier e2.deadline e1.deadline
    then Ordering.gt
    else Ordering.eq

pub etimer_event_match_ref : ℕ → Event → Bool
etimer_event_match_ref ref event = event.ref == ref

pub etimer_event_create : (ref : ℕ) → Timeval → ℕ → ℕ → Event
etimer_event_create ref deadline cb userdata = record {
  ref = ref;
  deadline = deadline;
  cb = cb;
  userdata = userdata;
}

pub etimer_create : (memory : ℕ → Event) → (infos : ℕ → ℕ) → Timer
etimer_create memory infos = record { queue = heap_create memory infos; run = false; signals = 0 }

pub etimer_empty : Timer → Bool
etimer_empty timer = heap_size timer.queue == 0

pub etimer_signal : Timer → Timer
etimer_signal timer = record timer { signals = timer.signals + 1 }

pub etimer_stop : Timer → Timer
unfolding etimer_signal
etimer_stop timer = etimer_signal (record timer { run = false })

-- `read` gives a hundred bytes at most, and EAGAIN once there is none
clean_loop : (fuel : ℕ) → ℕ → ℕ → Run (ℕ × ℕ)
clean_loop zero signals total = out_of_fuel
clean_loop (suc fuel) signals total =
    let n = if ltb signals 100 then signals else 100 in
    let rest = clean_loop fuel (signals - n) (total + n) in
    if signals == 0 then ok (total, signals) else rest

-- the number of the bytes read
pub etimer_clean_signals : Timer → Run (ℕ × Timer)
unfolding clean_loop
etimer_clean_signals timer = do
  (total, signals) ← clean_loop (timer.signals + 1) timer.signals 0
  ok (total, record timer { signals = signals })

-- a `long` that is assigned to an `int` is cut to 32 bits; one that is negative then is set to 0
pub int_timeout : ℕ → ℕ
int_timeout timeout = let bits = timeout % 2 ^ 32 in if leb (2 ^ 31) bits then 0 else bits

timeout_until : Timeval → Option Event → Option ℕ
unfolding int_timeout timersub
timeout_until now none = none
timeout_until now (some event) =
    let sub = timersub event.deadline now in
    if earlier event.deadline now
    then some 0
    else some (
        int_timeout
          (sub.tv_sec * 1000 + sub.tv_usec / 1000 + (if ltb 0 (sub.tv_usec % 1000) then 1 else 0)))

-- `none` is -1
pub etimer_calc_timeout : (now : Timeval) → Timer → Run (Option ℕ)
unfolding timeout_until
etimer_calc_timeout now timer = heap_min timer.queue >>= λ event. ok (timeout_until now event)

signal_if_first : Option Event → Option Event → Timer → Timer
unfolding etimer_signal
signal_if_first none min2 timer = etimer_signal timer
signal_if_first (some min1) none timer = timer
signal_if_first (some min1) (some min2) timer =
    if earlier min2.deadline min1.deadline then etimer_signal timer else timer

pub etimer_add : Timer → Event → Run (ℕ × Timer)
unfolding signal_if_first
etimer_add timer new_event = do
  min1 ← heap_min timer.queue
  (queue, _) ← heap_insert etimer_event_cmp timer.queue new_event
  min2 ← heap_min queue
  ok (new_event.ref, signal_if_first min1 min2 (record timer { queue = queue }))

pub etimer_deadline : (ref : ℕ) → Timer → Timeval → ℕ → ℕ → Run (ℕ × Timer)
unfolding etimer_event_create
etimer_deadline ref timer deadline cb ud = etimer_add timer (etimer_event_create ref deadline cb ud)

-- a time ahead of `now`; the fields are `long`, and one that overflows is a fault
time_ahead : (now : Timeval) → Timeval → Run Timeval
unfolding timeradd
time_ahead now ahead =
    let deadline = timeradd now ahead in
    if ltb deadline.tv_sec (2 ^ 63) && ltb (now.tv_usec + ahead.tv_usec) (2 ^ 63)
    then ok deadline
    else fault

pub etimer_after : (ref : ℕ) → (now : Timeval) → Timer → ℕ → ℕ → ℕ → Run (ℕ × Timer)
unfolding time_ahead etimer_event_create
etimer_after ref now timer sec cb ud = do
  deadline ← time_ahead now (record { tv_sec = sec; tv_usec = 0 })
  etimer_add timer (etimer_event_create ref deadline cb ud)

pub etimer_mafter : (ref : ℕ) → (now : Timeval) → Timer → ℕ → ℕ → ℕ → Run (ℕ × Timer)
unfolding time_ahead etimer_event_create
etimer_mafter ref now timer msec cb ud = do
  deadline ← time_ahead now (record { tv_sec = 0; tv_usec = msec * 1000 })
  etimer_add timer (etimer_event_create ref deadline cb ud)

canceled_call : Option Event → List Call
canceled_call none = []
canceled_call (some event) = record { event = event; canceled = true } ∷ []

returned_ref : Option Event → ℕ → Option ℕ
returned_ref none ref = none
returned_ref (some event) ref = some ref

-- the reference, or `none` for ETIMER_REF_NULL, with the calls that are made
pub etimer_cancel : Timer → ℕ → Run (Option ℕ × List Call × Timer)
unfolding canceled_call returned_ref
etimer_cancel timer ref = do
  (event, queue) ← heap_del_item etimer_event_cmp timer.queue (etimer_event_match_ref ref)
  ok (returned_ref event ref, canceled_call event, record timer { queue = queue })

module _ {queue : TailQueue} where
  -- `while( (event = heap_min(timer->queue)) )`; each round takes an event out
  extract_loop :
      (fuel : ℕ)
      → (now : Timeval) → Heap Event
      → LinkedList queue Event
      → Run (LinkedList queue Event × Heap Event)
  extract_loop zero now events ready = out_of_fuel
  extract_loop (suc fuel) now events ready = heap_min events >>= λ event. elim event [
    | none ↦ ok (ready, events)
    | some event ↦
        if earlier event.deadline now
        then (do
          (_, events) ← heap_shift etimer_event_cmp events
          extract_loop fuel now events (list_append ready event).1)
        else ok (ready, events)
  ]

  pub etimer_extract_ready : (now : Timeval) → Timer → Run (LinkedList queue Event × Timer)
  unfolding extract_loop
  etimer_extract_ready now timer = do
    (ready, events) ← extract_loop (timer.queue.size + 1) now timer.queue list_create
    ok (ready, record timer { queue = events })

  -- the calls in their order
  pub etimer_events_do : LinkedList queue Event → Bool → Run (List Call)
  etimer_events_do events canceled =
      loop events
        (λ li calls. list_iterator_get_value events li >>= λ event.
          ok (calls ++ (record { event = event; canceled = canceled } ∷ [])))
        []

  -- `while( (event = heap_shift(timer->queue)) )`
  shift_loop :
      (fuel : ℕ) → Heap Event → LinkedList queue Event → Run (LinkedList queue Event × Heap Event)
  shift_loop zero events list = out_of_fuel
  shift_loop (suc fuel) events list = heap_shift etimer_event_cmp events >>= λ (event, events).
      elim event [
        | none ↦ ok (list, events)
        | some event ↦ shift_loop fuel events (list_append list event).1
      ]

-- the calls that are made; they are given no timer
pub etimer_destroy : (queue : TailQueue) → Timer → Run (List Call)
unfolding shift_loop
etimer_destroy queue timer = do
  (events, rest) ← shift_loop (timer.queue.size + 1) timer.queue (list_create {queue = queue})
  _ ← heap_destroy rest false
  calls ← etimer_events_do events true
  _ ← list_destroy events true
  ok calls

-- What the loop of etimer_run does under the lock once epoll_wait has returned, or has not been
-- called: `signaled` if it has reported the pipe. `none` is no list.
pub take_ready :
    {queue : TailQueue}
    → (now : Timeval) → (signaled : Bool) → Timer
    → Run (Option (LinkedList queue Event) × Timer)
take_ready now signaled timer =
    (if signaled then (etimer_clean_signals timer >>= λ (_, timer). ok timer) else ok timer)
    >>= λ timer.
        if timer.run
        then (etimer_extract_ready now timer >>= λ (ready, timer). ok (some ready, timer))
        else ok (none, timer)
