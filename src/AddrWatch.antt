-- ===== src/AddrWatch.antt =====
-- addrwatch.c: a list of network addresses, each with the state that it was last seen in. An item is
-- a pointer; the memory `items` holds what it points to, and malloc gives pointers that were never
-- used. The calls of the operating system are a parameter. A callback is kept as a call made; it
-- changes the list of no watcher.
pub mod Items
pub mod Addresses
pub mod Watch
pub mod Loop
mod Tests
use bflib.Base.{
  ℕ, zero, suc, ◌+◌, Bool, true, false, ◌&&◌, Option, none, some, List, [], ◌∷◌, ◌++◌, ltb, ◌==◌,
  if◌then◌else◌,
}
use bflib.Run.{Run, ok, out_of_fuel, ◌>>=◌}
use bflib.TailQueue.{TailQueue}
use bflib.LinkedList.{
  LinkedList, list_create, list_first, list_next, list_iter_value, list_find, list_append,
  list_size, list_remove_first_match, list_destroy,
}

pub data State : Type 0 where
  st_null st_up st_down : State

pub record AddrItem : Type 0 where
  pub addr : List ℕ
  pub state : State

pub record AddrWatcher (queue : TailQueue) : Type 0 where
  pub timeout : ℕ
  pub addrs : LinkedList queue ℕ
  pub loop : Bool
  pub items : ℕ → AddrItem
  pub fresh : ℕ

-- a call of `cb` with an address and whether it is up
pub record Call : Type 0 where
  pub addr : List ℕ
  pub up : Bool

pub data Bound : Type 0 where
  bound addr_not_avail other_error : Bound

-- what socket, setsockopt, inet_pton and bind give: `false` is a failure
pub record Network : Type 0 where
  pub socket : Bool
  pub setsockopt : Bool
  pub inet_pton : List ℕ → Bool
  pub bind : List ℕ → Bound

bind_result : Bound → Option Bool
bind_result bound = some true
bind_result addr_not_avail = some false
bind_result other_error = none

-- `none` is -1
pub addrwatch : Network → List ℕ → Option Bool
unfolding bind_result
addrwatch net addr =
    if net.socket && (net.setsockopt && net.inet_pton addr)
    then bind_result (net.bind addr)
    else none

-- `strcmp(_, _) == 0`
abbrev pub same_text : List ℕ → List ℕ → Bool
same_text [] [] = true
same_text [] (b ∷ bs) = false
same_text (a ∷ cs) [] = false
same_text (a ∷ cs) (b ∷ bs) = let rest = same_text cs bs in (a == b) && rest

abbrev pub same_state : State → State → Bool
same_state st_null st_null = true
same_state st_up st_up = true
same_state st_down st_down = true
same_state _ _ = false

abbrev pub addr_item_match_addr : (ℕ → AddrItem) → List ℕ → ℕ → Bool
addr_item_match_addr items addr item = same_text (items item).addr addr

abbrev pub put_item : (ℕ → AddrItem) → ℕ → AddrItem → ℕ → AddrItem
put_item items p item q = if q == p then item else items q

module _ {queue : TailQueue} where
  pub addr_watcher_create : (memory : ℕ → AddrItem) → ℕ → AddrWatcher queue
  addr_watcher_create memory timeout = record {
    timeout = timeout;
    addrs = list_create;
    loop = false;
    items = memory;
    fresh = 0;
  }

  -- the pointers handed to addr_item_destructor
  pub addr_watcher_destroy : AddrWatcher queue → Run (List ℕ)
  addr_watcher_destroy watcher = list_destroy watcher.addrs true

  -- the item is put in the memory, in the state that is not known
  addr_item_create : AddrWatcher queue → List ℕ → AddrWatcher queue
  addr_item_create watcher addr = record watcher {
    items = put_item watcher.items watcher.fresh (record { addr = addr; state = st_null });
    fresh = watcher.fresh + 1;
  }

  add_if_new : AddrWatcher queue → List ℕ → Option ℕ → AddrWatcher queue
  unfolding addr_item_create
  add_if_new watcher addr none = record (addr_item_create watcher addr) {
    addrs = (list_append watcher.addrs watcher.fresh).1;
  }
  add_if_new watcher addr (some item) = watcher

  pub addr_watcher_add_addr : AddrWatcher queue → List ℕ → Run (ℕ × AddrWatcher queue)
  unfolding add_if_new
  addr_watcher_add_addr watcher addr = do
    found ← list_find watcher.addrs (addr_item_match_addr watcher.items addr)
    let after = add_if_new watcher addr found
    size ← list_size after.addrs
    ok (size, after)

  -- addr_item_destructor frees an item that is found
  pub addr_watcher_del_addr : AddrWatcher queue → List ℕ → Run (ℕ × AddrWatcher queue)
  addr_watcher_del_addr watcher addr = do
    (item, addrs) ← list_remove_first_match watcher.addrs (addr_item_match_addr watcher.items addr)
    size ← list_size addrs
    ok (size, record watcher { addrs = addrs })

  pub addr_watcher_breakloop : AddrWatcher queue → AddrWatcher queue
  addr_watcher_breakloop watcher = record watcher { loop = false }

-- the variables of the loop: `n`, the calls made and the memory
pub record Seen : Type 0 where
  pub n : ℕ
  pub calls : List Call
  pub items : ℕ → AddrItem

-- an address that was asked for
update_state : Seen → ℕ → Bool → Seen
update_state seen item up =
    let state = if up then st_up else st_down in
    if same_state state (seen.items item).state then seen else record {
      n = seen.n + 1;
      calls = seen.calls ++ (record { addr = (seen.items item).addr; up = up } ∷ []);
      items = put_item seen.items item (record { addr = (seen.items item).addr; state = state });
    }

-- `check` is addrwatch. The result is whether the loop came to its end, or to a -1.
module _ {queue : TailQueue} (check : List ℕ → Option Bool) where
  watch_loop : (fuel : ℕ) → LinkedList queue ℕ → Option ℕ → Seen → Run (Bool × Seen)
  unfolding update_state
  watch_loop zero addrs li seen = out_of_fuel
  watch_loop (suc fuel) addrs none seen = ok (true, seen)
  watch_loop (suc fuel) addrs (some li) seen = list_iter_value addrs li >>= λ item.
      elim (check (seen.items item).addr) [
        | none ↦ ok (false, seen)
        | some up ↦ watch_loop fuel addrs (list_next addrs li) (update_state seen item up)
      ]

  -- the count, `none` for -1, and the calls that were made
  pub addr_watcher_watch : AddrWatcher queue → Run (Option ℕ × List Call × AddrWatcher queue)
  unfolding watch_loop
  addr_watcher_watch watcher = do
    (done, seen) ←
        watch_loop (suc watcher.addrs.fresh) watcher.addrs (list_first watcher.addrs)
          (record { n = 0; calls = []; items = watcher.items })
    ok (if done then some seen.n else none, seen.calls, record watcher { items = seen.items })
