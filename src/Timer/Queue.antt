-- ===== src/Timer/Queue.antt =====
-- timer.c: the calls that put events in the queue, take them out and make their callbacks.
use mathlib.Core.List.{Perm, append-nil, append_assoc}
use mathlib.Core.List.Perm
use bflib.Base.{
  ℕ, zero, suc, ◌+◌, ◌<◌, ◌≡◌, ◌⊎◌, refl, sym, ap, ◌∙◌, Bool, true, false, not, ◌&&◌, Option, none,
  some, List, [], ◌∷◌, ◌++◌, map, All, All-perm, arith, Bool-cases, inl, inr, if◌then◌else◌, ltb,
  ◌==◌,
}
use bflib.Run.{ok, Returns, returns, Returns-bind, Returns-map}
use bflib.Heap.{Heap}
use bflib.Heap.Memory.{items, items-zero, items-All, All-items}
use bflib.Heap.Calls.Insert.{IsValid, Apart, Inserted, heap_insert_lem}
use bflib.Heap.Calls.Remove.{
  Removed, heap_shift_lem, heap_shift-empty, heap_min_lem, heap_min-empty, heap_min-least,
}
use bflib.Heap.Calls.Search.{heap_del_item_lem}
use bflib.Heap.Accessor.{heap_destroy-none}
use bflib.TailQueue.{TailQueue}
use bflib.LinkedList.{LinkedList, list_append, list_create}
use bflib.LinkedList.Walks.{Contains, loop-Returns}
use bflib.LinkedList.Build.Results.{
  list_append-Contains, list_create-Contains, list_destroy-Contains, list_iterator_get_value-live,
}
use bflib.Timer.{
  earlier, Event, Timer, Call, etimer_event_cmp, etimer_event_match_ref, etimer_events_do,
  etimer_add, etimer_signal, signal_if_first, etimer_cancel, canceled_call, returned_ref,
  shift_loop, etimer_destroy,
}
use bflib.Timer.Order.{etimer_event_cmp-IsPreorder, no_later, Le-no_later}
use bflib.Timer.Ready.{InOrder}

-- the queue is a heap with no accessor
pub record IsTimer (timer : Timer) : Type 0 where
  pub valid : IsValid etimer_event_cmp timer.queue
  pub no_info : timer.queue.get_info ≡ none

-- the events in the queue
abbrev pub queued : Timer → List Event
queued timer = items timer.queue.heap timer.queue.size

abbrev pub calls_of : Bool → List Event → List Call
calls_of canceled es = map (λ e. record { event = e; canceled = canceled }) es

-- the event would be the first of all
abbrev pub is_first : Event → List Event → Bool
is_first new [] = true
is_first new (e ∷ es) = earlier new.deadline e.deadline && is_first new es

pub etimer_events_do_lem :
    {queue : TailQueue} (list : LinkedList queue Event) (canceled : Bool) (es : List Event)
    → Contains list es
    → Returns (λ calls. calls ≡ calls_of canceled es) (etimer_events_do list canceled)
unfolding etimer_events_do
etimer_events_do_lem list canceled es (cells, holds, same) =
    Returns-map
      (loop-Returns (λ rest calls. calls ++ calls_of canceled rest ≡ calls_of canceled es) list _
        (λ a x rest calls live done.
          rw (list_iterator_get_value-live list a x live) (returns (append_assoc calls _ _ ∙ done)))
        cells [] holds (ap (calls_of canceled) same))
      (λ calls done. sym (append-nil calls) ∙ done)

-- a least event goes before the rest
All-drop :
    (test : Event → Bool) (e : Event) (es whole : List Event)
    → Perm (e ∷ es) whole
    → All (λ x. test x ≡ true) whole
    → All (λ x. test x ≡ true) es
All-drop test e es whole p all = (All-perm test _ _ (Perm.symm p) all).1

-- the root of a queue has no later deadline than any event
pub root_first :
    (h : Heap Event)
    → IsValid etimer_event_cmp h
    → All (λ e. no_later (h.heap 0) e ≡ true) (items h.heap h.size)
root_first h v = items-All (no_later (h.heap 0)) h.heap h.size (λ i p.
    Le-no_later (h.heap 0) (h.heap i)
      (heap_min-least etimer_event_cmp etimer_event_cmp-IsPreorder h v i p))

module _ {queue : TailQueue} where
  shift_loop_lem :
      (fuel : ℕ) (h : Heap Event) (list : LinkedList queue Event) (xs : List Event)
      → IsValid etimer_event_cmp h
      → h.size < fuel
      → Contains list xs
      → Returns
          (λ (list, g).
            (taken : List Event) × Contains list (xs ++ taken)
            × Perm taken (items h.heap h.size)
            × InOrder taken)
          (shift_loop fuel h list)
  unfolding shift_loop
  shift_loop_lem zero h list xs v fuel contents = absurd (omega arith)
  shift_loop_lem (suc fuel) h list xs v fuel' contents = elim (Bool-cases (ltb 0 h.size)) [
    | inl some_left ↦
        Returns-bind
          (heap_shift_lem etimer_event_cmp etimer_event_cmp-IsPreorder h v (ground arith))
          (λ (event, g) shifted.
            let removed = shifted.removed in
            rw (shifted.item) (
              Returns-map
                (shift_loop_lem fuel g (list_append list (h.heap 0)).1 (xs ++ h.heap 0 ∷ [])
                  removed.valid (omega (arith, removed.size))
                  (list_append-Contains list (h.heap 0) xs contents))
                λ (list, g') (taken, contents', perm, order).
                  let later = All-drop (no_later (h.heap 0)) _ _ _ removed.perm (root_first h v) in
                  (
                    h.heap 0 ∷ taken,
                    rw (← append_assoc xs (h.heap 0 ∷ []) taken) contents',
                    Perm.trans (Perm.cons (h.heap 0) perm) removed.perm,
                    (All-perm (no_later (h.heap 0)) _ _ (Perm.symm perm) later, order),
                  )))
    | inr empty ↦
        let none_left : h.size ≡ 0 = ground arith in
        rw (heap_shift-empty etimer_event_cmp etimer_event_cmp-IsPreorder h none_left) (
          returns
            ([], rw append-nil contents, rw (none_left, items-zero h.heap) (Perm.refl []), tt))
  ]

-- etimer_destroy calls back every event in the queue once, as canceled, in the order of deadlines
pub etimer_destroy_lem :
    (queue : TailQueue) (timer : Timer)
    → IsTimer timer
    → Returns
        (λ calls.
          (es : List Event) × (calls ≡ calls_of true es) × Perm es (queued timer) × InOrder es)
        (etimer_destroy queue timer)
unfolding etimer_destroy
etimer_destroy_lem queue timer t =
    Returns-bind
      (shift_loop_lem {queue = queue} (timer.queue.size + 1) timer.queue list_create [] t.valid
        (omega arith) list_create-Contains)
      (λ (events, rest) (es, contents, perm, order). rw (heap_destroy-none rest) (
        Returns-bind (etimer_events_do_lem events true es contents) (λ calls same.
          Returns-bind (list_destroy-Contains true events es contents)
            (λ freed _. returns (es, same, perm, order)))))

-- what etimer_add leaves: the event is in the queue, and the pipe has one byte more if it is the
-- first now
pub record Added (timer : Timer) (new : Event) (after : Timer) : Type 0 where
  pub valid : IsTimer after
  pub perm : Perm (queued after) (new ∷ queued timer)
  pub run : after.run ≡ timer.run
  pub signals : after.signals ≡ timer.signals + (if is_first new (queued timer) then 1 else 0)

-- a new event is the first if it comes before one that no other comes before
is_first-least :
    (new root : Event) (es : List Event)
    → earlier new.deadline root.deadline ≡ true
    → All (λ e. no_later root e ≡ true) es
    → is_first new es ≡ true
is_first-least new root [] h least = refl
is_first-least new root (e ∷ es) h (here, least) =
    let ih = is_first-least new root es h least in ground arith

is_first-All :
    (new : Event) (es : List Event)
    → is_first new es ≡ true
    → All (λ e. earlier new.deadline e.deadline ≡ true) es
is_first-All new [] first = tt
is_first-All new (e ∷ es) first = elim (Bool-cases (earlier new.deadline e.deadline)) [
  | inl h ↦ (h, is_first-All new es (rw h at first))
  | inr h ↦ absurd (ground arith)
]

not_first :
    (new : Event) (f : ℕ → Event) (n : ℕ)
    → 0 < n
    → earlier new.deadline (f 0).deadline ≡ false
    → is_first new (items f n) ≡ false
not_first new f n h later = elim (Bool-cases (is_first new (items f n))) [
  | inl e ↦
      let all = is_first-All new (items f n) e in
      let at_root = All-items (λ e. earlier new.deadline e.deadline) f n 0 h all in absurd (cc)
  | inr e ↦ e
]

signaled :
    (timer : Timer) (new : Event) (h : Heap Event)
    → IsValid etimer_event_cmp timer.queue
    → IsValid etimer_event_cmp h
    → 0 < timer.queue.size
    → 0 < h.size
    → Perm (items h.heap h.size) (new ∷ queued timer)
    → earlier (h.heap 0).deadline (timer.queue.heap 0).deadline ≡ is_first new (queued timer)
signaled timer new h v w more more' perm =
    let root = timer.queue.heap 0 in
    let least = root_first timer.queue v in
    elim (Bool-cases (earlier new.deadline root.deadline)) [
      | inl e ↦
          let (before, _) = All-perm (no_later (h.heap 0)) _ _ perm (root_first h w) in
          rw (is_first-least new root (queued timer) e least) (ground arith)
      | inr e ↦
          let later : no_later root new ≡ true = rw e refl in
          let all = All-perm (no_later root) _ _ (Perm.symm perm) (later, least) in
          let first = All-items (no_later root) h.heap h.size 0 more' all in
          rw (not_first new timer.queue.heap timer.queue.size more e) (ground arith)
    ]

Apart-none :
    (get_info : Option (Event → ℕ)) (f : ℕ → Event) (n : ℕ) (new : Event)
    → get_info ≡ none
    → Apart get_info f n new
Apart-none none f n new e = tt
Apart-none (some get) f n new e = absurd (ground arith)

signal_if_first-signals :
    (min1 min2 : Event) (timer : Timer) (first : Bool)
    → earlier min2.deadline min1.deadline ≡ first
    → (signal_if_first (some min1) (some min2) timer).signals
      ≡ timer.signals + (if first then 1 else 0)
unfolding signal_if_first etimer_signal
signal_if_first-signals min1 min2 timer first e = ground arith

signal_if_first-none :
    (new : Event) (timer : Timer) (g : Heap Event) (min2 : Option Event)
    → queued timer ≡ []
    → (signal_if_first none min2 (record timer { queue = g })).signals
      ≡ timer.signals + (if is_first new (queued timer) then 1 else 0)
unfolding signal_if_first etimer_signal
signal_if_first-none new timer g min2 e = rw e refl

pub no_items : (f : ℕ → Event) (n : ℕ) → n ≡ 0 → items f n ≡ []
no_items f zero e = items-zero f
no_items f (suc n) e = absurd (omega arith)

signal_if_first-kept :
    (min1 min2 : Option Event) (timer : Timer)
    → ((signal_if_first min1 min2 timer).queue ≡ timer.queue)
      × ((signal_if_first min1 min2 timer).run ≡ timer.run)
unfolding signal_if_first etimer_signal
signal_if_first-kept none min2 timer = (refl, refl)
signal_if_first-kept (some min1) none timer = (refl, refl)
signal_if_first-kept (some min1) (some min2) timer =
    elim (Bool-cases (earlier min2.deadline min1.deadline)) [
      | inl e ↦ rw e (refl, refl)
      | inr e ↦ rw e (refl, refl)
    ]

Added-Inserted :
    (timer : Timer) (new : Event) (g : Heap Event) (m : ℕ) (min1 min2 : Option Event)
    → IsTimer timer
    → Inserted etimer_event_cmp etimer_event_cmp-IsPreorder timer.queue new (g, m)
    → (signal_if_first min1 min2 (record timer { queue = g })).signals
      ≡ timer.signals + (if is_first new (queued timer) then 1 else 0)
    → Added timer new (signal_if_first min1 min2 (record timer { queue = g }))
Added-Inserted timer new g m min1 min2 t inserted signals =
    let (queue, run) = signal_if_first-kept min1 min2 (record timer { queue = g }) in
    record {
      valid = record {
        valid = rw queue inserted.valid;
        no_info = rw queue (inserted.get_info ∙ t.no_info);
      };
      perm = rw queue inserted.perm;
      run = run;
      signals = signals;
    }

-- etimer_add puts the event in the queue and returns its reference; it wakes the loop exactly if the
-- event has an earlier deadline than every event in the queue.
pub etimer_add_lem :
    (timer : Timer) (new : Event)
    → IsTimer timer
    → Returns (λ (ref, after). (ref ≡ new.ref) × Added timer new after) (etimer_add timer new)
unfolding etimer_add
etimer_add_lem timer new t =
    let apart = Apart-none timer.queue.get_info timer.queue.heap timer.queue.size new t.no_info in
    let inserted =
      heap_insert_lem etimer_event_cmp etimer_event_cmp-IsPreorder timer.queue new t.valid apart in
    elim (Bool-cases (ltb 0 timer.queue.size)) [
      | inl more ↦
          rw
            (heap_min_lem etimer_event_cmp etimer_event_cmp-IsPreorder timer.queue t.valid
              (ground arith))
            (Returns-bind inserted (λ (g, m) done.
              let more' : 0 < g.size = omega (arith, done.size) in
              rw (heap_min_lem etimer_event_cmp etimer_event_cmp-IsPreorder g done.valid more') (
                returns (
                  refl,
                  Added-Inserted timer new g m (some (timer.queue.heap 0)) (some (g.heap 0)) t done
                      (signal_if_first-signals (timer.queue.heap 0) (g.heap 0)
                        (record timer { queue = g }) (is_first new (queued timer))
                        (signaled timer new g t.valid done.valid (ground arith) more' done.perm)),
                ))))
      | inr empty ↦
          let none_left : timer.queue.size ≡ 0 = ground arith in
          rw (heap_min-empty etimer_event_cmp etimer_event_cmp-IsPreorder timer.queue none_left) (
            Returns-bind inserted (λ (g, m) done.
              let more' : 0 < g.size = omega (arith, done.size) in
              rw (heap_min_lem etimer_event_cmp etimer_event_cmp-IsPreorder g done.valid more') (
                returns (
                  refl,
                  Added-Inserted timer new g m none (some (g.heap 0)) t done (
                      signal_if_first-none new timer g (some (g.heap 0))
                        (no_items timer.queue.heap timer.queue.size none_left)),
                ))))
    ]

-- etimer_cancel of a reference in the queue takes its event out, calls it back once, as canceled, and
-- returns the reference; of any other it returns ETIMER_REF_NULL, and nothing else happens.
abbrev pub Canceled : Timer → ℕ → Option ℕ × List Call × Timer → Type 0
Canceled timer ref (result, calls, after) =
    ((result ≡ none)
      × (calls ≡ [])
      × (after ≡ timer)
      × All (λ e. not (e.ref == ref) ≡ true) (queued timer))
    ⊎ ((e : Event) × (e.ref ≡ ref)
        × (result ≡ some ref)
        × (calls ≡ calls_of true (e ∷ []))
        × Perm (e ∷ queued after) (queued timer)
        × (after.run ≡ timer.run)
        × (after.signals ≡ timer.signals))

Canceled-none :
    (timer : Timer) (ref : ℕ) (event : Option Event) (h : Heap Event)
    → IsTimer timer
    → event ≡ none
    → h ≡ timer.queue
    → All (λ e. not (e.ref == ref) ≡ true) (queued timer)
    → Returns
        (λ r. Canceled timer ref r × IsTimer r.2)
        (ok (returned_ref event ref, canceled_call event, record timer { queue = h }))
unfolding returned_ref canceled_call
Canceled-none timer ref event h t e same missed =
    rw (e, same) (returns (inl (refl, refl, refl, missed), t))

Canceled-some :
    (timer : Timer) (ref : ℕ) (event : Option Event) (e : Event) (h : Heap Event)
    → IsTimer timer
    → event ≡ some e
    → e.ref ≡ ref
    → Removed etimer_event_cmp etimer_event_cmp-IsPreorder timer.queue e h
    → Returns
        (λ r. Canceled timer ref r × IsTimer r.2)
        (ok (returned_ref event ref, canceled_call event, record timer { queue = h }))
unfolding returned_ref canceled_call
Canceled-some timer ref event e h t found same removed = rw found (
    returns (
      inr (e, same, refl, refl, removed.perm, refl, refl),
      record { valid = removed.valid; no_info = removed.get_info ∙ t.no_info },
    ))

match_ref-eq : (ref : ℕ) (e : Event) → etimer_event_match_ref ref e ≡ true → e.ref ≡ ref
unfolding etimer_event_match_ref
match_ref-eq ref e h = ground arith

match_ref-ne :
    (ref : ℕ) (e : Event) → etimer_event_match_ref ref e ≡ false → not (e.ref == ref) ≡ true
unfolding etimer_event_match_ref
match_ref-ne ref e h = ground arith

pub etimer_cancel_lem :
    (timer : Timer) (ref : ℕ)
    → IsTimer timer
    → Returns (λ r. Canceled timer ref r × IsTimer r.2) (etimer_cancel timer ref)
unfolding etimer_cancel
etimer_cancel_lem timer ref t =
    Returns-bind
      (heap_del_item_lem etimer_event_cmp etimer_event_cmp-IsPreorder (etimer_event_match_ref ref)
        timer.queue t.valid)
      (λ (event, h) found. elim found [
        | inl (same, missed) ↦
            Canceled-none timer ref event h t (ap (λ (r : Option Event × Heap Event). r.0) same)
              (ap (λ (r : Option Event × Heap Event). r.1) same)
              (items-All (λ e. not (e.ref == ref)) timer.queue.heap timer.queue.size
                (λ i p. match_ref-ne ref (timer.queue.heap i) (missed i p)))
        | inr deleted ↦
            Canceled-some timer ref event (timer.queue.heap deleted.at) h t deleted.item
              (match_ref-eq ref (timer.queue.heap deleted.at) deleted.matches) deleted.removed
      ])
