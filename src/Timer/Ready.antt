-- ===== src/Timer/Ready.antt =====
-- timer.c: the events that are due are taken out of the queue in the order of their deadlines.
use mathlib.Core.List.{Perm, append-nil, append_assoc}
use mathlib.Core.List.Perm
use bflib.Base.{
  ℕ, zero, suc, ◌+◌, ◌<◌, ◌≡◌, refl, ◌∙◌, Bool, true, false, not, List, [], ◌∷◌, ◌++◌, All,
  All-perm, arith, Bool-cases, inl, inr, ltb,
}
use bflib.Run.{Returns, returns, Returns-bind, Returns-map, Returns-if}
use bflib.Heap.{Heap}
use bflib.Heap.Memory.{items, items-zero, items-All}
use bflib.Heap.Calls.Insert.{IsValid}
use bflib.Heap.Calls.Remove.{heap_shift_lem, heap_min_lem, heap_min-empty, heap_min-least}
use bflib.TailQueue.{TailQueue}
use bflib.LinkedList.{LinkedList, list_append, list_create}
use bflib.LinkedList.Walks.{Contains}
use bflib.LinkedList.Build.Results.{list_append-Contains, list_create-Contains}
use bflib.Timer.{
  Timeval, earlier, Event, Timer, etimer_event_cmp, extract_loop, etimer_extract_ready,
}
use bflib.Timer.Order.{etimer_event_cmp-IsPreorder, no_later, Le-no_later}

abbrev pub due : Timeval → Event → Bool
due now event = earlier event.deadline now

-- no event has a later deadline than one behind it
abbrev pub InOrder : List Event → Type 0
InOrder [] = Unit
InOrder (x ∷ xs) = All (λ y. no_later x y ≡ true) xs × InOrder xs

-- the events of `taken` were taken out of `before`: they are due and in order, and the others are not
pub record Extracted (now : Timeval) (before after : Heap Event) (taken : List Event) : Type 0 where
  pub valid : IsValid etimer_event_cmp after
  pub perm : Perm (taken ++ items after.heap after.size) (items before.heap before.size)
  pub ready : All (λ e. due now e ≡ true) taken
  pub waiting : All (λ e. not (due now e) ≡ true) (items after.heap after.size)
  pub order : InOrder taken
  pub get_info : after.get_info ≡ before.get_info

All-append_left :
    (test : Event → Bool) (xs ys : List Event)
    → All (λ e. test e ≡ true) (xs ++ ys)
    → All (λ e. test e ≡ true) xs
All-append_left test [] ys all = tt
All-append_left test (x ∷ xs) ys (here, all) = (here, All-append_left test xs ys all)

-- an event taken out before the others
Extracted-cons :
    (now : Timeval) (h g g' : Heap Event) (root : Event) (taken : List Event)
    → due now root ≡ true
    → All (λ e. no_later root e ≡ true) (items h.heap h.size)
    → Perm (root ∷ items g.heap g.size) (items h.heap h.size)
    → g.get_info ≡ h.get_info
    → Extracted now g g' taken
    → Extracted now h g' (root ∷ taken)
Extracted-cons now h g g' root taken passed least perm info rest =
    let (_, others) = All-perm (no_later root) _ _ (Perm.symm perm) least in
    let both = All-perm (no_later root) _ _ (Perm.symm rest.perm) others in
    record {
      valid = rest.valid;
      perm = Perm.trans (Perm.cons root rest.perm) perm;
      ready = (passed, rest.ready);
      waiting = rest.waiting;
      order = (All-append_left (no_later root) taken (items g'.heap g'.size) both, rest.order);
      get_info = rest.get_info ∙ info;
    }

-- the first event is not due, so none is
not_due :
    (now : Timeval) (root : Event) (es : List Event)
    → due now root ≡ false
    → All (λ e. no_later root e ≡ true) es
    → All (λ e. not (due now e) ≡ true) es
not_due now root [] later least = tt
not_due now root (e ∷ es) later (h, least) = (ground arith, not_due now root es later least)

none_taken :
    (now : Timeval) (h : Heap Event)
    → IsValid etimer_event_cmp h
    → All (λ e. not (due now e) ≡ true) (items h.heap h.size)
    → Extracted now h h []
none_taken now h v waiting = record {
  valid = v;
  perm = Perm.refl (items h.heap h.size);
  ready = tt;
  waiting = waiting;
  order = tt;
  get_info = refl;
}

module _ {queue : TailQueue} where
  extract_loop_lem :
      (fuel : ℕ) (now : Timeval) (h : Heap Event) (ready : LinkedList queue Event) (xs : List Event)
      → IsValid etimer_event_cmp h
      → h.size < fuel
      → Contains ready xs
      → Returns
          (λ (list, g).
            (taken : List Event) × Contains list (xs ++ taken) × Extracted now h g taken)
          (extract_loop fuel now h ready)
  unfolding extract_loop
  extract_loop_lem zero now h ready xs v fuel contents = absurd (omega arith)
  extract_loop_lem (suc fuel) now h ready xs v fuel' contents = elim (Bool-cases (ltb 0 h.size)) [
    | inl some_left ↦
        let root = h.heap 0 in
        let least = items-All (no_later root) h.heap h.size (λ i p.
          Le-no_later root (h.heap i)
            (heap_min-least etimer_event_cmp etimer_event_cmp-IsPreorder h v i p)) in
        rw (heap_min_lem etimer_event_cmp etimer_event_cmp-IsPreorder h v (ground arith)) (
          Returns-if (due now root)
            (λ passed.
              Returns-bind
                (heap_shift_lem etimer_event_cmp etimer_event_cmp-IsPreorder h v (ground arith))
                (λ (x, g) shifted.
                  let removed = shifted.removed in
                  Returns-map
                    (extract_loop_lem fuel now g (list_append ready root).1 (xs ++ root ∷ [])
                      removed.valid (omega (arith, removed.size))
                      (list_append-Contains ready root xs contents))
                    λ (list, g') (taken, contents', rest). (
                      root ∷ taken,
                      rw (← append_assoc xs (root ∷ []) taken) contents',
                      Extracted-cons now h g g' root taken passed least removed.perm
                          removed.get_info rest,
                    )))
            (λ later.
              returns
                ([], rw append-nil contents, none_taken now h v (not_due now root _ later least))))
    | inr empty ↦
        let none_left : h.size ≡ 0 = ground arith in
        rw (heap_min-empty etimer_event_cmp etimer_event_cmp-IsPreorder h none_left) (
          returns
            ([], rw append-nil contents, none_taken now h v (rw (none_left, items-zero h.heap) tt)))
  ]

  -- etimer_extract_ready takes the events out whose deadline is before `now`, and no other: the
  -- list holds them in the order of their deadlines, and the rest of the timer stays.
  pub etimer_extract_ready_lem :
      (now : Timeval) (timer : Timer)
      → IsValid etimer_event_cmp timer.queue
      → Returns
          (λ (ready, after).
            (taken : List Event) × Contains {queue = queue} ready taken
            × Extracted now timer.queue after.queue taken
            × (after.run ≡ timer.run)
            × (after.signals ≡ timer.signals))
          (etimer_extract_ready now timer)
  unfolding etimer_extract_ready
  etimer_extract_ready_lem now timer v =
      Returns-bind
        (extract_loop_lem (timer.queue.size + 1) now timer.queue list_create [] v (omega arith)
          list_create-Contains)
        (λ (ready, events) (taken, contents, extracted).
          returns (taken, contents, extracted, refl, refl))
