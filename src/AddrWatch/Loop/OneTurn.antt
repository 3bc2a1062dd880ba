-- ===== src/AddrWatch/Loop/OneTurn.antt =====
-- One turn of addr_watcher_watchloop (addrwatch.c).
use mathlib.Core.Path.{ap₂}
use mathlib.Core.List.{append-nil}
use bflib.Base.{
  ℕ, ◌+◌, ◌*◌, ◌^◌, ◌<◌, ◌≡◌, refl, sym, ap, ◌∙◌, Bool, true, false, ◌&&◌, not, Option, none, some,
  List, ◌++◌, length, length-append, arith, if◌then◌else◌,
}
use bflib.Run.{ok, Returns, returns, Returns-bind, Returns-if}
use bflib.TailQueue.{TailQueue}
use bflib.Timer.{earlier}
use bflib.Timer.Timeout.{micros, timeradd-micros, timeradd-usec}
use bflib.AddrWatch.{AddrItem, AddrWatcher, Call, addr_watcher_breakloop}
use bflib.AddrWatch.Items.{refreshed, all_known}
use bflib.AddrWatch.Addresses.{Watches}
use bflib.AddrWatch.Watch.{Round, watch-Round}
use bflib.AddrWatch.Loop.{
  Turn, Looping, timeout_of, add_total, unless_stopped, after_round, watch_turn,
}
use bflib.AddrWatch.Loop.Plan.{Outcome, one_round, nothing, length-changes}

-- the loop has done what `o` says, with the calls `prior` made before, and goes on unless a round
-- failed or it was stopped
pub record Done {queue : TailQueue} (prior : List Call) (o : Outcome) (stopped : Bool)
    (after : Looping queue) : Type 0 where
  pub calls : after.calls ≡ prior ++ o.calls
  pub total : after.total ≡ (if o.known then some (length after.calls) else none)
  pub watches : Watches after.watcher o.items
  pub loop : after.watcher.loop ≡ o.known && not stopped

-- before a turn
pub record Going {queue : TailQueue} (timeout : ℕ) (xs : List AddrItem) (state : Looping queue)
    : Type 0 where
  pub watches : Watches state.watcher xs
  pub loop : state.watcher.loop ≡ true
  pub same_timeout : state.watcher.timeout ≡ timeout
  pub usec : state.next.tv_usec < 1000000
  pub total : state.total ≡ some (length state.calls)

-- after a turn, with the time of the next round unless this one failed
pub record Turned {queue : TailQueue} (prior : List Call) (o : Outcome) (stopped : Bool)
    (timeout due : ℕ) (after : Looping queue) : Type 0 where
  pub done : Done prior o stopped after
  pub same_timeout : after.watcher.timeout ≡ timeout
  pub usec : after.next.tv_usec < 1000000
  pub next : o.known ≡ true → micros after.next ≡ due

timeout_of-micros : (timeout : ℕ) → micros (timeout_of timeout) ≡ timeout * 1000
timeout_of-micros timeout = omega arith

-- what the result of a round says
result-failed :
    (known : Bool) (calls : ℕ) → none ≡ (if known then some calls else none) → known ≡ false
result-failed true calls e = absurd (ground arith)
result-failed false calls e = refl

result-known :
    (known : Bool) (n calls : ℕ)
    → some n ≡ (if known then some calls else none)
    → (known ≡ true) × (n ≡ calls)
result-known true n calls e = (refl, ground arith)
result-known false n calls e = absurd (ground arith)

add_total-small :
    (total n : ℕ) → total + n < 2 ^ 31 → add_total (some total) n ≡ ok (some (total + n))
unfolding add_total
add_total-small total n h = ground arith

module _ {queue : TailQueue} where
  pub set_loop-Watches :
      (watcher : AddrWatcher queue) (loop : Bool) (xs : List AddrItem)
      → Watches watcher xs
      → Watches (record watcher { loop = loop }) xs
  set_loop-Watches watcher loop xs w = record {
    pointers = w.pointers;
    contents = w.contents;
    distinct = w.distinct;
    below = w.below;
    items = w.items;
  }

  unless_stopped-Watches :
      (stopped : Bool) (watcher : AddrWatcher queue) (xs : List AddrItem)
      → Watches watcher xs
      → Watches (unless_stopped stopped watcher) xs
  unfolding unless_stopped addr_watcher_breakloop
  unless_stopped-Watches true watcher xs w = set_loop-Watches watcher false xs w
  unless_stopped-Watches false watcher xs w = w

  unless_stopped-timeout :
      (stopped : Bool) (watcher : AddrWatcher queue)
      → (unless_stopped stopped watcher).timeout ≡ watcher.timeout
  unfolding unless_stopped addr_watcher_breakloop
  unless_stopped-timeout true watcher = refl
  unless_stopped-timeout false watcher = refl

  unless_stopped-loop :
      (stopped : Bool) (watcher : AddrWatcher queue)
      → watcher.loop ≡ true
      → (unless_stopped stopped watcher).loop ≡ not stopped
  unfolding unless_stopped addr_watcher_breakloop
  unless_stopped-loop true watcher e = refl
  unless_stopped-loop false watcher e = e

  -- a turn that is not due
  pub turn_idle :
      (timeout : ℕ) (xs : List AddrItem) (state : Looping queue) (t : Turn)
      → Going timeout xs state
      → earlier state.next t.now ≡ false
      → Returns
          (Turned state.calls (nothing xs) t.stopped timeout (micros state.next))
          (watch_turn state t)
  unfolding watch_turn
  turn_idle timeout xs state t g e =
      Returns-if (earlier state.next t.now) (λ due. absurd (ground arith))
        (λ idle. returns (record {
          done = record {
            calls = sym (append-nil state.calls);
            total = g.total;
            watches = unless_stopped-Watches t.stopped state.watcher xs g.watches;
            loop = unless_stopped-loop t.stopped state.watcher g.loop;
          };
          same_timeout = unless_stopped-timeout t.stopped state.watcher ∙ g.same_timeout;
          usec = g.usec;
          next = λ known. refl;
        }))

  -- what is done after a round
  after_round-Turned :
      (timeout : ℕ) (xs : List AddrItem) (state : Looping queue) (t : Turn) (result : Option ℕ)
      (calls : List Call) (watcher : AddrWatcher queue)
      → Going timeout xs state
      → t.now.tv_usec < 1000000
      → length state.calls + length xs < 2 ^ 31
      → Round t.check xs (result, calls, watcher)
      → watcher.timeout ≡ timeout
      → watcher.loop ≡ true
      → Returns
          (Turned state.calls
            (one_round t.check xs)
            t.stopped
            timeout
            (micros t.now + timeout * 1000))
          (after_round state t result calls watcher)
  unfolding after_round addr_watcher_breakloop
  after_round-Turned timeout xs state t none calls watcher g p small round same going =
      let failed = result-failed (all_known t.check xs) (length calls) round.result in
      returns (record {
        done = record {
          calls = ap (◌++◌ state.calls) round.calls;
          total = rw failed refl;
          watches = set_loop-Watches watcher false (refreshed t.check xs) round.watches;
          loop = rw failed refl;
        };
        same_timeout = same;
        usec = g.usec;
        next = λ known. absurd (ground arith);
      })
  after_round-Turned timeout xs state t (some n) calls watcher g p small round same going =
      let (known, count) = result-known (all_known t.check xs) n (length calls) round.result in
      let made = length-append state.calls calls in
      let few : length state.calls + n < 2 ^ 31 =
        omega (arith, count, ap length round.calls, length-changes t.check xs) in
      let later = timeout_of watcher.timeout in
      rw (g.total, add_total-small (length state.calls) n few)
        (returns (record {
          done = record {
            calls = ap (◌++◌ state.calls) round.calls;
            total = rw known (ap some (omega (arith, count, made)));
            watches = unless_stopped-Watches t.stopped watcher (refreshed t.check xs) round.watches;
            loop = rw known (unless_stopped-loop t.stopped watcher going);
          };
          same_timeout = unless_stopped-timeout t.stopped watcher ∙ same;
          usec = timeradd-usec t.now later p (omega arith);
          next = λ known.
              timeradd-micros t.now later
              ∙ ap (◌+◌ (micros t.now))
                  (timeout_of-micros watcher.timeout ∙ ap (λ (k : ℕ). k * 1000) same);
        }))

  pub turn_due :
      (timeout : ℕ) (xs : List AddrItem) (state : Looping queue) (t : Turn)
      → Going timeout xs state
      → t.now.tv_usec < 1000000
      → length state.calls + length xs < 2 ^ 31
      → earlier state.next t.now ≡ true
      → Returns
          (Turned state.calls
            (one_round t.check xs)
            t.stopped
            timeout
            (micros t.now + timeout * 1000))
          (watch_turn state t)
  unfolding watch_turn
  turn_due timeout xs state t g p small e =
      Returns-if (earlier state.next t.now)
        (λ due.
          Returns-bind (watch-Round t.check state.watcher xs g.watches)
            (λ (result, calls, watcher) (round, same, going).
              after_round-Turned timeout xs state t result calls watcher g p small round
                (same ∙ g.same_timeout) (going ∙ g.loop)))
        (λ idle. absurd (ground arith))

  -- a turn whose loop goes on gives the state of the next
  pub Turned-Going :
      (prior : List Call) (o : Outcome) (stopped : Bool) (timeout due : ℕ) (after : Looping queue)
      → Turned prior o stopped timeout due after
      → o.known ≡ true
      → stopped ≡ false
      → Going timeout o.items after
  Turned-Going prior o stopped timeout due after t known on = record {
    watches = t.done.watches;
    loop = t.done.loop ∙ ap₂ (λ (a b : Bool). a && not b) known on;
    same_timeout = t.same_timeout;
    usec = t.usec;
    total = t.done.total ∙ ap (λ (b : Bool). if b then some (length after.calls) else none) known;
  }
