-- ===== src/Timer/Loop/Due.antt =====
-- timer.c: the loop of etimer_run gets to the callbacks of the events that are due.
use bflib.Base.{◌≡◌, refl, ap, Bool, true, false, Option, none, some, List, [], ◌∷◌, arith}
use bflib.Run.{ok, Returns-result}
use bflib.TailQueue.{TailQueue}
use bflib.LinkedList.{LinkedList}
use bflib.Timer.{Timeval, Event, Timer, Call, take_ready}
use bflib.Timer.Ready.{Extracted}
use bflib.Timer.Queue.{IsTimer, calls_of, etimer_events_do_lem}
use bflib.Timer.Loop.{Place, System, Step, wake, call, again, Reach, here, next}
use bflib.Timer.Loop.Once.{IsTaken, take_ready_lem}

-- calls made one after another, before those of a log whose last call stands first
abbrev pub logged : List Call → List Call → List Call
logged [] log = log
logged (c ∷ calls) log = logged calls (c ∷ log)

-- where the loop gets to: its head, with the due events out of the queue and called back in order
pub record IsCalled (now : Timeval) (s t : System) : Type 0 where
  pub place : t.place ≡ Place.polling
  pub due : List Event
  pub extracted : Extracted now s.timer.queue t.timer.queue due
  pub called : t.called ≡ logged (calls_of false due) s.called
  pub added : t.added ≡ s.added

Reach-first :
    {queue : TailQueue} {s t u : System} → Step queue s t → Reach queue t u → Reach queue s u
Reach-first step here = next here step
Reach-first step (next r last) = next (Reach-first step r) last

-- the calls that are left
calling-Reach :
    {queue : TailQueue} (calls : List Call) (timer : Timer) (added : List Event) (log : List Call)
    → Reach queue
        (record { timer = timer; place = Place.calling calls; added = added; called = log })
        (record { timer = timer; place = Place.polling; added = added; called = logged calls log })
calling-Reach [] timer added log = next here (again refl refl)
calling-Reach (c ∷ calls) timer added log =
    Reach-first (call c calls refl refl) (calling-Reach calls timer added (c ∷ log))

taken-Reach :
    {queue : TailQueue} (now : Timeval) (signaled : Bool) (s : System)
    (found : Option (LinkedList queue Event)) (after : Timer)
    → s.place ≡ Place.waiting
    → s.timer.run ≡ true
    → take_ready now signaled s.timer ≡ ok (found, after)
    → IsTaken s.timer now (found, after)
    → (t : System) × Reach queue s t × IsCalled now s t
taken-Reach now signaled s none after at runs took (stopped, same) = absurd (ground arith)
taken-Reach now signaled s (some ready) after at runs took (_, (es, contents, extracted)) =
    let (calls, made, same) = Returns-result (etimer_events_do_lem ready false es contents) in
    let t : System = record {
      timer = after;
      place = Place.polling;
      added = s.added;
      called = logged calls s.called;
    } in
    (
      t,
      Reach-first (wake now signaled (some ready, after) at took (calls, made, refl))
          (calling-Reach calls after s.added s.called),
      record {
        place = refl;
        due = es;
        extracted = extracted;
        called = ap (λ (cs : List Call). logged cs s.called) same;
        added = refl;
      },
    )

-- When epoll_wait returns in etimer_run and the loop was not stopped, the steps of the loop lead to
-- its head, with the events out of the queue whose deadlines are before `now`, and no other; each
-- was called back once, as not canceled, in the order of the deadlines.
pub wake-Reach :
    (queue : TailQueue) (now : Timeval) (signaled : Bool) (s : System)
    → IsTimer s.timer
    → s.place ≡ Place.waiting
    → s.timer.run ≡ true
    → (t : System) × Reach queue s t × IsCalled now s t
wake-Reach queue now signaled s valid at runs =
    let ((found, after), took, taken) =
      Returns-result (take_ready_lem {queue = queue} now signaled s.timer valid) in
    taken-Reach now signaled s found after at runs took taken
