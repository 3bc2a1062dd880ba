-- ===== src/Timer/Loop/Once.antt =====
-- timer.c: no event is lost or called twice, in whatever order the calls and the loop go on.
use mathlib.Core.List.{Perm, perm_middle}
use mathlib.Core.List.Perm
use mathlib.Core.Path.{subst}
use bflib.Base.{
  ℕ, zero, suc, ◌+◌, ◌-◌, ◌<◌, ltb, arith, ◌≡◌, refl, ap, ◌∙◌, Bool, true, false, Option, none,
  some, List, [], ◌∷◌, ◌++◌, map, inl, inr, if◌then◌else◌,
}
use bflib.Run.{ok, ◌>>=◌, Returns, returns, Returns-bind, Returns-if, Returns-at}
use bflib.Heap.{heap_create}
use bflib.Heap.Calls.Insert.{heap_create-IsValid, heap_create-empty}
use bflib.Timer.Order.{etimer_event_cmp-IsPreorder}
use bflib.TailQueue.{TailQueue}
use bflib.LinkedList.{LinkedList}
use bflib.LinkedList.Walks.{Contains}
use bflib.Timer.{
  Timeval, Event, Timer, Call, take_ready, etimer_extract_ready, etimer_clean_signals, clean_loop,
  etimer_stop, etimer_signal, etimer_create, etimer_event_cmp,
}
use bflib.Timer.Ready.{Extracted, etimer_extract_ready_lem}
use bflib.Timer.Queue.{
  no_items, IsTimer, queued, calls_of, etimer_events_do_lem, etimer_add_lem, Canceled,
  etimer_cancel_lem,
}
use bflib.Timer.Loop.{
  Place, System, Taken, Step, start, wait, pass, wake, call, again, add, cancel, stop, Reach, here,
  next, initial,
}

abbrev pub events_of : List Call → List Event
events_of calls = map (λ c. c.event) calls

abbrev pub in_hand : Place → List Call
in_hand (Place.calling calls) = calls
in_hand _ = []

-- Every event that was added is in the queue, on the list that etimer_events_do goes through, or was
-- called back, and in only one of these places.
pub record IsAccounted (s : System) : Type 0 where
  pub timer : IsTimer s.timer
  pub all : Perm (events_of s.called ++ (events_of (in_hand s.place) ++ queued s.timer)) s.added

events_of-calls_of : (canceled : Bool) (es : List Event) → events_of (calls_of canceled es) ≡ es
events_of-calls_of canceled [] = refl
events_of-calls_of canceled (e ∷ es) = ap (◌∷◌ e) (events_of-calls_of canceled es)

-- an event before all the others
to_front :
    (e : Event) (done hand waiting : List Event)
    → Perm (done ++ (hand ++ (e ∷ waiting))) (e ∷ (done ++ (hand ++ waiting)))
to_front e done hand waiting =
    Perm.trans (Perm.append_left done (perm_middle hand waiting))
      (perm_middle done (hand ++ waiting))

-- What the locked part of the loop takes, if the loop goes on: the events that are due.
abbrev pub IsTaken :
    {queue : TailQueue} → Timer → Timeval → Option (LinkedList queue Event) × Timer → Type 0
IsTaken timer now (none, after) = (timer.run ≡ false) × (after.queue ≡ timer.queue)
IsTaken timer now (some ready, after) =
    (timer.run ≡ true)
    × ((es : List Event) × Contains ready es × Extracted now timer.queue after.queue es)

clean_loop_lem :
    (fuel signals total : ℕ)
    → signals < fuel
    → clean_loop fuel signals total ≡ ok (total + signals, 0)
unfolding clean_loop
clean_loop_lem zero signals total h = absurd (omega arith)
clean_loop_lem (suc fuel) signals total h =
    let n = if ltb signals 100 then signals else 100 in
    let ih = clean_loop_lem fuel (signals - n) (total + n) in ground arith

etimer_clean_signals_lem :
    (timer : Timer) → etimer_clean_signals timer ≡ ok (timer.signals, record timer { signals = 0 })
unfolding etimer_clean_signals
etimer_clean_signals_lem timer =
    let all : 0 + timer.signals ≡ timer.signals = omega arith in
    rw (clean_loop_lem (timer.signals + 1) timer.signals 0 (omega arith), all) refl

run_or_stop :
    {queue : TailQueue} (now : Timeval) (timer : Timer)
    → IsTimer timer
    → Returns (IsTaken {queue = queue} timer now) (
        if timer.run
        then (etimer_extract_ready {queue = queue} now timer >>= λ (ready, timer).
            ok (some ready, timer))
        else ok (none, timer))
run_or_stop now timer t =
    Returns-if timer.run
      (λ runs.
        Returns-bind (etimer_extract_ready_lem now timer t.valid)
          (λ (ready, after) (es, contents, extracted, _, _).
            returns (runs, (es, contents, extracted))))
      (λ stopped. returns (stopped, refl))

pub take_ready_lem :
    {queue : TailQueue} (now : Timeval) (signaled : Bool) (timer : Timer)
    → IsTimer timer
    → Returns (IsTaken {queue = queue} timer now) (take_ready now signaled timer)
unfolding take_ready
take_ready_lem now true timer t = rw (etimer_clean_signals_lem timer) (
    run_or_stop now (record timer { signals = 0 })
      (record { valid = t.valid; no_info = t.no_info }))
take_ready_lem now false timer t = run_or_stop now timer t

IsTimer-queue : (timer after : Timer) → IsTimer timer → after.queue ≡ timer.queue → IsTimer after
IsTimer-queue timer after t e = record { valid = rw e t.valid; no_info = rw e t.no_info }

-- with nothing in hand, every event is in the queue or was called back
free_hand :
    (s : System)
    → in_hand s.place ≡ []
    → IsAccounted s
    → Perm (events_of s.called ++ queued s.timer) s.added
free_hand s free inv =
    subst
      (λ (calls : List Call).
        Perm (events_of s.called ++ (events_of calls ++ queued s.timer)) s.added)
      free inv.all

-- the part of the loop under the lock
Taken-IsAccounted :
    {queue : TailQueue} (now : Timeval) (s t : System)
    (taken : Option (LinkedList queue Event) × Timer)
    → in_hand s.place ≡ []
    → IsAccounted s
    → IsTaken s.timer now taken
    → Taken s taken t
    → IsAccounted t
Taken-IsAccounted now s t (none, after) free inv (stopped, same) e =
    let all = free_hand s free inv in
    rw e (record { timer = IsTimer-queue s.timer after inv.timer same; all = rw same all })
Taken-IsAccounted now s t (some ready, after) free inv (runs, (es, contents, extracted))
      (calls, made, e) =
    let all = free_hand s free inv in
    let same = Returns-at calls (etimer_events_do_lem ready false es contents) made in
    let hand = ap events_of same ∙ events_of-calls_of false es in
    rw e (record {
      timer = record { valid = extracted.valid; no_info = extracted.get_info ∙ inv.timer.no_info };
      all = rw hand (Perm.trans (Perm.append_left (events_of s.called) extracted.perm) all);
    })

-- an event more in the queue, and one that a call takes out
add-perm :
    (new : Event) (done hand before after whole : List Event)
    → Perm after (new ∷ before)
    → Perm (done ++ (hand ++ before)) whole
    → Perm (done ++ (hand ++ after)) (new ∷ whole)
add-perm new done hand before after whole p all =
    Perm.trans (Perm.append_left done (Perm.append_left hand p))
      (Perm.trans (to_front new done hand before) (Perm.cons new all))

call-perm :
    (e : Event) (done hand before after whole : List Event)
    → Perm (e ∷ after) before
    → Perm (done ++ (hand ++ before)) whole
    → Perm (e ∷ (done ++ (hand ++ after))) whole
call-perm e done hand before after whole p all =
    Perm.trans (Perm.symm (to_front e done hand after))
      (Perm.trans (Perm.append_left done (Perm.append_left hand p)) all)

Canceled-IsAccounted :
    (s : System) (ref : ℕ) (result : Option ℕ) (calls : List Call) (timer : Timer)
    → IsAccounted s
    → IsTimer timer
    → Canceled s.timer ref (result, calls, timer)
    → IsAccounted (record s { timer = timer; called = calls ++ s.called })
Canceled-IsAccounted s ref result calls timer inv t (inl (none_found, no_call, same, _)) =
    rw (no_call, same) (record { timer = inv.timer; all = inv.all })
Canceled-IsAccounted s ref result calls timer inv t (inr (e, _, _, one, perm, _, _)) =
    rw one (record {
      timer = t;
      all =
          call-perm e (events_of s.called) (events_of (in_hand s.place)) (queued s.timer)
            (queued timer) s.added perm inv.all;
    })

-- each step of the loop and of the other calls keeps every event in one place
Step-IsAccounted :
    {queue : TailQueue} {s t : System} → Step queue s t → IsAccounted s → IsAccounted t
unfolding etimer_stop etimer_signal
Step-IsAccounted {s = s} (start at e) inv = rw e (record {
  timer = IsTimer-queue s.timer _ inv.timer refl;
  all = free_hand s (ap in_hand at) inv;
})
Step-IsAccounted {s = s} (wait now timeout at known busy e) inv =
    rw e (record { timer = inv.timer; all = free_hand s (ap in_hand at) inv })
Step-IsAccounted {s = s} {t = t} (pass now later taken at known took end) inv =
    Taken-IsAccounted later s t taken (ap in_hand at) inv
      (Returns-at taken (take_ready_lem later false s.timer inv.timer) took) end
Step-IsAccounted {s = s} {t = t} (wake now signaled taken at took end) inv =
    Taken-IsAccounted now s t taken (ap in_hand at) inv
      (Returns-at taken (take_ready_lem now signaled s.timer inv.timer) took) end
Step-IsAccounted {s = s} (call c calls at e) inv =
    let all =
      subst
        (λ (calls : List Call).
          Perm (events_of s.called ++ (events_of calls ++ queued s.timer)) s.added)
        (ap in_hand at) inv.all in
    rw e (record {
      timer = inv.timer;
      all =
          Perm.trans
            (Perm.symm (perm_middle (events_of s.called) (events_of calls ++ queued s.timer))) all;
    })
Step-IsAccounted {s = s} (again at e) inv =
    rw e (record { timer = inv.timer; all = free_hand s (ap in_hand at) inv })
Step-IsAccounted {s = s} (add event ref timer known e) inv =
    let (_, added) = Returns-at (ref, timer) (etimer_add_lem s.timer event inv.timer) known in
    rw e (record {
      timer = added.valid;
      all =
          add-perm event (events_of s.called) (events_of (in_hand s.place)) (queued s.timer)
            (queued timer) s.added added.perm inv.all;
    })
Step-IsAccounted {s = s} (cancel ref result calls timer known e) inv =
    let (canceled, valid) =
      Returns-at (result, calls, timer) (etimer_cancel_lem s.timer ref inv.timer) known in
    rw e (Canceled-IsAccounted s ref result calls timer inv valid canceled)
Step-IsAccounted {s = s} (stop e) inv =
    rw e (record { timer = IsTimer-queue s.timer _ inv.timer refl; all = inv.all })

Reach-IsAccounted :
    {queue : TailQueue} {s t : System} → IsAccounted s → Reach queue s t → IsAccounted t
Reach-IsAccounted inv here = inv
Reach-IsAccounted inv (next r step) = Step-IsAccounted step (Reach-IsAccounted inv r)

initial-IsAccounted : (memory : ℕ → Event) (infos : ℕ → ℕ) → IsAccounted (initial memory infos)
unfolding etimer_create
initial-IsAccounted memory infos =
    let (none_there, no_info) =
      heap_create-empty etimer_event_cmp etimer_event_cmp-IsPreorder memory infos in
    record {
      timer = record {
        valid = heap_create-IsValid etimer_event_cmp etimer_event_cmp-IsPreorder memory infos;
        no_info = no_info;
      };
      all =
          rw (no_items (heap_create memory infos).heap (heap_create memory infos).size none_there)
            (Perm.refl []);
    }

-- From a new timer, by steps of etimer_run, of other threads and of callbacks in whatever order:
-- every event that was added is in the queue, or on the list that etimer_run goes through, or was
-- called back, and in only one of these places, once; and the queue is a valid heap.
pub etimer_run-IsAccounted :
    (queue : TailQueue) (memory : ℕ → Event) (infos : ℕ → ℕ) (s : System)
    → Reach queue (initial memory infos) s
    → IsAccounted s
etimer_run-IsAccounted queue memory infos s steps =
    Reach-IsAccounted (initial-IsAccounted memory infos) steps
