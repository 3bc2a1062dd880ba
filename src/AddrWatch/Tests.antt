-- ===== src/AddrWatch/Tests.antt =====
-- Runs of addrwatch.c over a queue that is a sequence.
use bflib.Base.{
  ℕ, ◌≡◌, refl, Bool, true, false, none, some, List, [], ◌∷◌, arith, ◌==◌, length, if◌then◌else◌,
}
use bflib.Run.{Returns, ◌>>=◌}
use bflib.TailQueue.Sequence.{sequence}
use bflib.LinkedList.{store}
use bflib.LinkedList.Contents.{Holds}
use bflib.LinkedList.Walks.{without_match}
use bflib.AddrWatch.{
  st_down, AddrItem, AddrWatcher, Network, bound, addr_not_avail, addrwatch, put_item,
  addr_watcher_create, addr_watcher_add_addr, addr_watcher_del_addr, addr_watcher_watch,
}
use bflib.AddrWatch.Items.{all_known}
use bflib.AddrWatch.Addresses.{Watches, added, has_addr, addr_watcher_add_addr_lem}
use bflib.AddrWatch.Loop.{Turn, addr_watcher_watchloop}
use bflib.Timer.Timeout.{micros}
use bflib.AddrWatch.Loop.Plan.{heard, is_stopped, rounds, outcome, addresses}
use bflib.AddrWatch.Loop.OneTurn.{Done}
use bflib.AddrWatch.Loop.Rounds.{addr_watcher_watchloop_lem}
use bflib.AddrWatch.Watch.{Round, addr_watcher_watch_lem}

abbrev first_item : AddrItem
first_item = record { addr = 49 ∷ []; state = st_down }

abbrev second_item : AddrItem
second_item = record { addr = 50 ∷ []; state = st_down }

abbrev sample_items : List AddrItem
sample_items = first_item ∷ second_item ∷ []

abbrev sample_memory : ℕ → AddrItem
sample_memory = put_item (λ p. second_item) 0 first_item

abbrev sample_watcher : AddrWatcher sequence
sample_watcher = record {
  timeout = 1000;
  addrs = record {
    head = 0 ∷ 1 ∷ [];
    item = store (store (λ a. none) 0 (some 0)) 1 (some 1);
    fresh = 2;
  };
  loop = false;
  items = sample_memory;
  fresh = 2;
}

sample_addrs-Holds : Holds sample_watcher.addrs ((0, 0) ∷ (1, 1) ∷ [])
sample_addrs-Holds = record {
  order = refl;
  distinct = omega arith;
  cells = (refl, omega arith, (refl, omega arith, tt));
  count = omega arith;
}

sample-Watches : Watches sample_watcher sample_items
sample-Watches = record {
  pointers = 0 ∷ 1 ∷ [];
  contents = ((0, 0) ∷ (1, 1) ∷ [], sample_addrs-Holds, refl);
  distinct = omega arith;
  below = (omega arith, (omega arith, tt));
  items = refl;
}

-- the host has the first address only
abbrev sample_network : Network
sample_network = record {
  socket = true;
  setsockopt = true;
  inet_pton = λ addr. true;
  bind = λ addr. elim addr [
    | [] ↦ addr_not_avail
    | a ∷ rest ↦ if a == 49 then bound else addr_not_avail
  ];
}

addr_watcher_add_addr_lem_example :
    ((memory : ℕ → AddrItem) (timeout : ℕ)
      → Watches (addr_watcher_create {queue = sequence} memory timeout) [])
    × Returns
        (λ (size, after).
          (size ≡ length (added (51 ∷ []) sample_items))
          × Watches after (added (51 ∷ []) sample_items))
        (addr_watcher_add_addr sample_watcher (51 ∷ []))
    × Returns
        (λ (size, after).
          (size ≡ length (without_match (has_addr (51 ∷ [])) sample_items))
          × Watches after (without_match (has_addr (51 ∷ [])) sample_items))
        (addr_watcher_del_addr sample_watcher (51 ∷ []))
addr_watcher_add_addr_lem_example =
    addr_watcher_add_addr_lem sample_watcher sample_items (51 ∷ []) sample-Watches

addr_watcher_watch_lem_example :
    Returns
      (Round (addrwatch sample_network) sample_items)
      (addr_watcher_watch (addrwatch sample_network) sample_watcher)
    × Returns
        (λ (result, calls, after).
          (calls ≡ [])
          × (result ≡ (if all_known (addrwatch sample_network) sample_items then some 0 else none)))
        (addr_watcher_watch (addrwatch sample_network) sample_watcher >>= λ (_, _, after).
          addr_watcher_watch (addrwatch sample_network) after)
addr_watcher_watch_lem_example =
    addr_watcher_watch_lem (addrwatch sample_network) sample_watcher sample_items sample-Watches

abbrev sample_turn : ℕ → Bool → Turn
sample_turn second stopped = record {
  now = record { tv_sec = second; tv_usec = 0 };
  check = addrwatch sample_network;
  stopped = stopped;
}

abbrev sample_turns : List Turn
sample_turns =
    sample_turn 5 false ∷ sample_turn 6 false ∷ sample_turn 7 false ∷ sample_turn 9 true ∷ []

-- the turns at 6 and 9 seconds make a round, the one at 7 comes no later than a second after
sample_rounds :
    rounds 1000 (micros (record { tv_sec = 5; tv_usec = 0 })) (heard sample_turns)
    ≡ sample_turn 6 false ∷ sample_turn 9 true ∷ []
sample_rounds = refl

addr_watcher_watchloop_lem_example :
    Returns
      (λ after.
        Done []
          (outcome sample_items
            (rounds 1000 (micros (record { tv_sec = 5; tv_usec = 0 })) (heard sample_turns)))
          (is_stopped sample_turns)
          after
        × (addresses
              (outcome sample_items (
                rounds 1000
                  (micros (record { tv_sec = 5; tv_usec = 0 }))
                  (heard sample_turns))).items
            ≡ addresses sample_items))
      (addr_watcher_watchloop (record { tv_sec = 5; tv_usec = 0 }) sample_watcher sample_turns)
addr_watcher_watchloop_lem_example =
    addr_watcher_watchloop_lem (record { tv_sec = 5; tv_usec = 0 }) sample_watcher sample_items
      sample_turns sample-Watches (omega arith) (omega arith) (omega arith)
