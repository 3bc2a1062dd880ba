-- ===== src/Timer/Loop.antt =====
-- timer.c: etimer_run beside the other calls. The lock makes each locked part one step, and the calls
-- of other threads and of the callbacks come between the steps of the loop.
pub mod Once
pub mod Due
use bflib.Base.{ℕ, ◌≡◌, ◌≢◌, Bool, true, false, Option, none, some, List, [], ◌∷◌, ◌++◌, map}
use bflib.Run.{Run, ok}
use bflib.TailQueue.{TailQueue}
use bflib.LinkedList.{LinkedList}
use bflib.Timer.{
  Timeval, Event, Timer, Call, etimer_create, etimer_calc_timeout, take_ready, etimer_events_do,
  etimer_add, etimer_cancel, etimer_stop,
}

-- where the thread of etimer_run is: not in it, at the head of its loop, in epoll_wait, or in
-- etimer_events_do with these calls to make
pub data Place : Type 0 where
  stopped polling waiting : Place
  calling : List Call → Place

-- the timer and the loop, with the events that etimer_add was given and the calls that were made
pub record System : Type 0 where
  pub timer : Timer
  pub place : Place
  pub added : List Event
  pub called : List Call

-- The end of the locked part of the loop, with what it has taken: no list if the loop is stopped.
abbrev pub Taken :
    {queue : TailQueue} → System → Option (LinkedList queue Event) × Timer → System → Type 0
Taken s (none, timer) t = t ≡ record s { timer = timer; place = Place.stopped }
Taken s (some ready, timer) t =
    (calls : List Call) × (etimer_events_do ready false ≡ ok calls)
    × (t ≡ record s { timer = timer; place = Place.calling calls })

pub data Step (queue : TailQueue) (s t : System) : Type 0 where
  start :
      s.place ≡ Place.stopped
      → t ≡ record s { timer = record s.timer { run = true }; place = Place.polling }
      → Step queue s t
  wait :
      (now : Timeval) (timeout : Option ℕ)
      → s.place ≡ Place.polling
      → etimer_calc_timeout now s.timer ≡ ok timeout
      → timeout ≢ some 0
      → t ≡ record s { place = Place.waiting }
      → Step queue s t
  -- the lock is held on
  pass :
      (now later : Timeval) (taken : Option (LinkedList queue Event) × Timer)
      → s.place ≡ Place.polling
      → etimer_calc_timeout now s.timer ≡ ok (some 0)
      → take_ready later false s.timer ≡ ok taken
      → Taken s taken t
      → Step queue s t
  wake :
      (now : Timeval) (signaled : Bool) (taken : Option (LinkedList queue Event) × Timer)
      → s.place ≡ Place.waiting
      → take_ready now signaled s.timer ≡ ok taken
      → Taken s taken t
      → Step queue s t
  call :
      (c : Call) (calls : List Call)
      → s.place ≡ Place.calling (c ∷ calls)
      → t ≡ record s { place = Place.calling calls; called = c ∷ s.called }
      → Step queue s t
  again : s.place ≡ Place.calling [] → t ≡ record s { place = Place.polling } → Step queue s t
  -- etimer_after, etimer_mafter or etimer_deadline
  add :
      (event : Event) (ref : ℕ) (timer : Timer)
      → etimer_add s.timer event ≡ ok (ref, timer)
      → t ≡ record s { timer = timer; added = event ∷ s.added }
      → Step queue s t
  cancel :
      (ref : ℕ) (result : Option ℕ) (calls : List Call) (timer : Timer)
      → etimer_cancel s.timer ref ≡ ok (result, calls, timer)
      → t ≡ record s { timer = timer; called = calls ++ s.called }
      → Step queue s t
  stop : t ≡ record s { timer = etimer_stop s.timer } → Step queue s t

pub data Reach (queue : TailQueue) (s : System) : System → Type 0 where
  here : Reach queue s s
  next : {t u : System} → Reach queue s t → Step queue t u → Reach queue s u

-- a timer that etimer_create gives
abbrev pub initial : (memory : ℕ → Event) → (infos : ℕ → ℕ) → System
initial memory infos = record {
  timer = etimer_create memory infos;
  place = Place.stopped;
  added = [];
  called = [];
}
