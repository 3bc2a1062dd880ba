-- ===== src/AddrWatch/Loop.antt =====
-- addr_watcher_watchloop (addrwatch.c) as turns of its loop. What a turn meets is a parameter: the
-- time, what addrwatch gives for each address, and whether addr_watcher_breakloop is called, in a
-- callback or in another thread. The sleep at the end of a turn changes nothing.
pub mod OneTurn
pub mod Plan
pub mod Rounds
use bflib.Base.{
  ℕ, ◌+◌, ◌*◌, ◌/◌, ◌%◌, ◌^◌, ltb, Bool, true, false, Option, none, some, List, [], ◌∷◌, ◌++◌,
  if◌then◌else◌,
}
use bflib.Run.{Run, ok, fault, ◌>>=◌}
use bflib.TailQueue.{TailQueue}
use bflib.Timer.{Timeval, earlier, timeradd}
use bflib.AddrWatch.{AddrWatcher, Call, addr_watcher_watch, addr_watcher_breakloop}

pub record Turn : Type 0 where
  pub now : Timeval
  pub check : List ℕ → Option Bool
  pub stopped : Bool

-- the variables of the loop, `total` with `none` for -1, and the calls made so far
pub record Looping (queue : TailQueue) : Type 0 where
  pub total : Option ℕ
  pub next : Timeval
  pub calls : List Call
  pub watcher : AddrWatcher queue

-- `timeout` in a struct timeval
abbrev timeout_of : ℕ → Timeval
timeout_of timeout = record { tv_sec = timeout / 1000; tv_usec = timeout % 1000 * 1000 }

-- the total is an `int`, and an overflow is a fault; -1 is given only when the loop ends
add_total : Option ℕ → ℕ → Run (Option ℕ)
add_total none n = ok none
add_total (some total) n = if ltb (total + n) (2 ^ 31) then ok (some (total + n)) else fault

module _ {queue : TailQueue} where
  unless_stopped : Bool → AddrWatcher queue → AddrWatcher queue
  unless_stopped stopped watcher = if stopped then addr_watcher_breakloop watcher else watcher

  -- what is done with the result of addr_watcher_watch
  after_round :
      Looping queue → Turn → Option ℕ → List Call → AddrWatcher queue → Run (Looping queue)
  unfolding add_total unless_stopped
  after_round state turn none calls watcher = ok (record {
    total = none;
    next = state.next;
    calls = state.calls ++ calls;
    watcher = addr_watcher_breakloop watcher;
  })
  after_round state turn (some n) calls watcher = do
    total ← add_total state.total n
    ok (record {
      total = total;
      next = timeradd turn.now (timeout_of watcher.timeout);
      calls = state.calls ++ calls;
      watcher = unless_stopped turn.stopped watcher;
    })

  pub watch_turn : Looping queue → Turn → Run (Looping queue)
  unfolding after_round unless_stopped
  watch_turn state turn =
      if earlier state.next turn.now
      then (do
        (n, calls, watcher) ← addr_watcher_watch turn.check state.watcher
        after_round state turn n calls watcher)
      else ok (record state { watcher = unless_stopped turn.stopped state.watcher })

  -- as far as the turns go, or the loop
  watch_turns : Looping queue → List Turn → Run (Looping queue)
  unfolding watch_turn
  watch_turns state [] = ok state
  watch_turns state (turn ∷ turns) =
      let rest = λ (state : Looping queue). watch_turns state turns in
      if state.watcher.loop then (watch_turn state turn >>= rest) else ok state

  pub addr_watcher_watchloop :
      (start : Timeval) → AddrWatcher queue → List Turn → Run (Looping queue)
  unfolding watch_turns
  addr_watcher_watchloop start watcher turns =
      watch_turns
        (record {
          total = some 0;
          next = start;
          calls = [];
          watcher = record watcher { loop = true };
        })
        turns
