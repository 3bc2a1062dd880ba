-- ===== src/AddrWatch/Loop/Rounds.antt =====
-- addr_watcher_watchloop (addrwatch.c) makes the rounds that it is to make.
use mathlib.Core.List.{append-nil, append_assoc}
use bflib.Base.{
  ℕ, suc, ◌+◌, ◌*◌, ◌^◌, ◌<◌, ◌≡◌, refl, sym, ap, ◌∙◌, Bool, true, false, ◌||◌, List, [], ◌∷◌, ◌++◌,
  All, length, length-append, arith, Bool-cases, inl, inr, if◌then◌else◌,
}
use bflib.Run.{Returns, returns, Returns-bind, Returns-map, Returns-if}
use bflib.TailQueue.{TailQueue}
use bflib.Timer.{Timeval, earlier}
use bflib.Timer.Timeout.{micros, earlier-micros}
use bflib.AddrWatch.{AddrItem, AddrWatcher, Call}
use bflib.AddrWatch.Items.{changes, refreshed, all_known}
use bflib.AddrWatch.Addresses.{Watches}
use bflib.AddrWatch.Loop.{Turn, Looping, watch_turns, addr_watcher_watchloop}
use bflib.AddrWatch.Loop.Plan.{
  heard, is_stopped, rounds, Outcome, outcome, one_round, nothing, sequel, rounds-due, rounds-idle,
  rounds-unless, addresses, outcome-addresses, length-refreshed, length-changes,
}
use bflib.AddrWatch.Loop.OneTurn.{
  Done, Going, Turned, set_loop-Watches, turn_idle, turn_due, Turned-Going,
}

-- the calls that one round can still make fit beside those of the turns after it
budget-turn :
    (made turns each : ℕ) → made + suc turns * each < 2 ^ 31 → made + each + turns * each < 2 ^ 31
budget-turn made turns each h = grind arith

module _ {queue : TailQueue} where
  -- no turn is run when the loop has ended
  watch_turns-ended :
      {Q : Looping queue → Type 0} (state : Looping queue) (turns : List Turn)
      → state.watcher.loop ≡ false
      → Q state
      → Returns Q (watch_turns state turns)
  unfolding watch_turns
  watch_turns-ended state [] e q = returns q
  watch_turns-ended state (t ∷ ts) e q =
      Returns-if state.watcher.loop (λ on. absurd (ground arith)) (λ off. returns q)

  -- one turn and those after it
  Done-join :
      (prior : List Call) (o o' : Outcome) (stopped : Bool) (middle after : Looping queue)
      → Done prior o false middle
      → Done middle.calls o' stopped after
      → Done prior
          (record { calls = o.calls ++ o'.calls; known = o'.known; items = o'.items })
          stopped
          after
  Done-join prior o o' stopped middle after first rest = record {
    calls =
        rest.calls ∙ ap (λ cs. cs ++ o'.calls) first.calls ∙ append_assoc prior o.calls o'.calls;
    total = rest.total;
    watches = rest.watches;
    loop = rest.loop;
  }

  -- the turns `ts` after one that made `calls`, given what they do if the loop goes on
  after_turn :
      (prior calls : List Call) (known : Bool) (items : List AddrItem) (stopped : Bool)
      (timeout due : ℕ) (ts : List Turn) (middle : Looping queue)
      → Turned prior
          (record { calls = calls; known = known; items = items })
          stopped
          timeout
          due
          middle
      → (known ≡ true
          → stopped ≡ false
          → Returns
              (Done middle.calls
                (outcome items (rounds timeout (micros middle.next) (heard ts)))
                (is_stopped ts))
              (watch_turns middle ts))
      → Returns
          (Done prior
            (sequel
              (record { calls = calls; known = known; items = items })
              (outcome items (if stopped then [] else rounds timeout due (heard ts))))
            (stopped || is_stopped ts))
          (watch_turns middle ts)
  after_turn prior calls false items stopped timeout due ts middle t more =
      watch_turns-ended middle ts t.done.loop (record {
        calls = t.done.calls;
        total = t.done.total;
        watches = t.done.watches;
        loop = t.done.loop;
      })
  after_turn prior calls true items true timeout due ts middle t more =
      watch_turns-ended middle ts t.done.loop (record {
        calls = t.done.calls ∙ ap (◌++◌ prior) (sym (append-nil calls));
        total = t.done.total;
        watches = t.done.watches;
        loop = t.done.loop;
      })
  after_turn prior calls true items false timeout due ts middle t more = rw (sym (t.next refl)) (
      Returns-map (more refl refl) (λ after done.
        Done-join prior (record { calls = calls; known = true; items = items }) _ (is_stopped ts)
          middle after t.done done))

  -- the same outcome by another name
  Done-same :
      (prior : List Call) (o o' : Outcome) (stopped : Bool) (after : Looping queue)
      → o ≡ o'
      → Done prior o' stopped after
      → Done prior o stopped after
  Done-same prior o o' stopped after e done = rw e done

  watch_turns-Done :
      (timeout : ℕ) (turns : List Turn) (state : Looping queue) (xs : List AddrItem)
      → Going timeout xs state
      → All (λ t. t.now.tv_usec < 1000000) turns
      → length state.calls + length turns * length xs < 2 ^ 31
      → Returns
          (Done state.calls
            (outcome xs (rounds timeout (micros state.next) (heard turns)))
            (is_stopped turns))
          (watch_turns state turns)
  unfolding watch_turns
  watch_turns-Done timeout [] state xs g all budget = returns (record {
    calls = sym (append-nil state.calls);
    total = g.total;
    watches = g.watches;
    loop = g.loop;
  })
  watch_turns-Done timeout (t ∷ ts) state xs g (p, all) budget =
      let few = budget-turn (length state.calls) (length ts) (length xs) budget in
      Returns-if state.watcher.loop
        (λ on. elim (Bool-cases (earlier state.next t.now)) [
          | inl e ↦
              let next = refreshed t.check xs in
              let due = micros t.now + timeout * 1000 in
              Returns-bind (turn_due timeout xs state t g p (omega (arith, few)) e)
                (λ middle turned.
                  Returns-map
                    (after_turn state.calls (changes t.check xs) (all_known t.check xs) next
                      t.stopped timeout due ts middle turned
                      (λ known stopped.
                        watch_turns-Done timeout ts middle next
                          (Turned-Going state.calls (one_round t.check xs) t.stopped timeout due
                            middle turned known stopped)
                          all
                          (omega (
                            arith,
                            few,
                            ap length turned.done.calls,
                            length-append state.calls (changes t.check xs),
                            length-changes t.check xs,
                            ap (λ (k : ℕ). length ts * k) (length-refreshed t.check xs),
                          ))))
                    (λ after done.
                      Done-same state.calls _ _ (t.stopped || is_stopped ts) after
                        (ap (outcome xs) (
                          rounds-due t (if t.stopped then [] else heard ts) timeout
                            (micros state.next) (sym (earlier-micros state.next t.now g.usec p) ∙ e)
                          ∙ ap (◌∷◌ t) (rounds-unless t.stopped timeout due (heard ts))))
                        done))
          | inr e ↦ Returns-bind (turn_idle timeout xs state t g e) (λ middle turned.
              Returns-map
                (after_turn state.calls [] true xs t.stopped timeout (micros state.next) ts middle
                  turned
                  (λ known stopped.
                    watch_turns-Done timeout ts middle xs
                      (Turned-Going state.calls (nothing xs) t.stopped timeout (micros state.next)
                        middle turned known stopped)
                      all
                      (omega
                        (arith, few, ap length turned.done.calls, length-append state.calls []))))
                (λ after done.
                  Done-same state.calls _ _ (t.stopped || is_stopped ts) after
                    (ap (outcome xs) (
                      rounds-idle t (if t.stopped then [] else heard ts) timeout (micros state.next)
                        (sym (earlier-micros state.next t.now g.usec p) ∙ e)
                      ∙ rounds-unless t.stopped timeout (micros state.next) (heard ts)))
                    done))
        ])
        (λ off. absurd (ground arith))

  -- On a watcher of the items `xs`, with microseconds below a second in all the times, and fewer than
  -- 2 ^ 31 turns times items, addr_watcher_watchloop makes a round in each turn that is later than
  -- the start and by more than the timeout later than the round before, up to and with the turn in
  -- which addr_watcher_breakloop is called or a round fails: the calls are those of these rounds, one after
  -- the other, and the states are noted. The total is -1 if a round failed, and otherwise the number
  -- of the calls; the loop has ended exactly if a round failed or it was stopped. The watcher keeps
  -- the addresses in their order.
  pub addr_watcher_watchloop_lem :
      (start : Timeval) (watcher : AddrWatcher queue) (xs : List AddrItem) (turns : List Turn)
      → Watches watcher xs
      → start.tv_usec < 1000000
      → All (λ t. t.now.tv_usec < 1000000) turns
      → length turns * length xs < 2 ^ 31
      → Returns
          (λ after.
            Done []
              (outcome xs (rounds watcher.timeout (micros start) (heard turns)))
              (is_stopped turns)
              after
            × (addresses (outcome xs (rounds watcher.timeout (micros start) (heard turns))).items
                ≡ addresses xs))
          (addr_watcher_watchloop start watcher turns)
  unfolding addr_watcher_watchloop
  addr_watcher_watchloop_lem start watcher xs turns w p all budget =
      Returns-map
        (watch_turns-Done watcher.timeout turns _ xs
          (record {
            watches = set_loop-Watches watcher true xs w;
            loop = refl;
            same_timeout = refl;
            usec = p;
            total = refl;
          })
          all (omega (arith, budget)))
        (λ after done.
          (done, outcome-addresses xs (rounds watcher.timeout (micros start) (heard turns))))
