-- ===== src/AddrWatch/Watch.antt =====
-- addr_watcher_watch (addrwatch.c) on the items of the list.
use mathlib.Core.List.{append-nil, append_assoc}
use mathlib.Core.Path.{ap₂}
use bflib.Base.{
  ℕ, zero, suc, ◌+◌, ◌<◌, ◌≡◌, ◌≢◌, refl, sym, ap, ◌∙◌, Bool, true, false, Option, none, some, List,
  [], ◌∷◌, ◌++◌, map, length, length-append, arith, Bool-cases, Option-cases, inl, inr,
  if◌then◌else◌,
}
use bflib.Run.{◌>>=◌, Returns, returns, Returns-bind, Returns-map}
use bflib.TailQueue.{TailQueue, head?, NotIn, IsDistinct}
use bflib.LinkedList.{LinkedList}
use bflib.LinkedList.Contents.{values, addrs, Holds, Cells-value}
use bflib.LinkedList.Change.{list_first-Holds, list_next-Holds}
use bflib.LinkedList.Build.Results.{list_iter_value-live}
use bflib.AddrWatch.{
  State, AddrItem, AddrWatcher, Call, Seen, same_state, update_state, watch_loop,
  addr_watcher_watch,
}
use bflib.AddrWatch.Items.{
  seen_state, change, changes, refreshed, all_known, same_state-eq, change-known, change-new,
  changes-cons, refreshed-cons, all_known-cons, unknown-cons, changes-refreshed,
  all_known-refreshed,
}
use bflib.AddrWatch.Addresses.{Watches, view-kept}

-- what the loop does for one item
record Updated (seen : Seen) (p : ℕ) (up : Bool) (after : Seen) : Type 0 where
  n : after.n ≡ seen.n + length (change (seen.items p) up)
  calls : after.calls ≡ seen.calls ++ change (seen.items p) up
  item : after.items p ≡ record { addr = (seen.items p).addr; state = seen_state up }
  others : (q : ℕ) → q ≢ p → after.items q ≡ seen.items q

update_state-Updated :
    (seen : Seen) (p : ℕ) (up : Bool) → Updated seen p up (update_state seen p up)
unfolding update_state
update_state-Updated seen p up =
    elim (Bool-cases (same_state (seen_state up) (seen.items p).state)) [
      | inl e ↦
          let known = same_state-eq (seen_state up) (seen.items p).state e in
          let nothing = change-known (seen.items p) up e in
          rw e (record {
            n = omega (arith, ap length nothing);
            calls = sym (ap (◌++◌ seen.calls) nothing ∙ append-nil seen.calls);
            item =
                ap
                  (λ (st : State).
                    let x : AddrItem = record { addr = (seen.items p).addr; state = st } in x)
                  known;
            others = λ q ne. refl;
          })
      | inr e ↦
          let one = change-new (seen.items p) up e in
          rw e (record {
            n = omega (arith, ap length one);
            calls = sym (ap (◌++◌ seen.calls) one);
            item = ground arith;
            others = λ q ne. ground arith;
          })
    ]

-- what the loop does for the items from `ps` on
record Walked (check : List ℕ → Option Bool) (seen : Seen) (ps : List ℕ) (r : Bool × Seen)
    : Type 0 where
  done : r.0 ≡ all_known check (map seen.items ps)
  n : r.1.n ≡ seen.n + length (changes check (map seen.items ps))
  calls : r.1.calls ≡ seen.calls ++ changes check (map seen.items ps)
  items : map r.1.items ps ≡ refreshed check (map seen.items ps)
  others : (q : ℕ) → NotIn q ps → r.1.items q ≡ seen.items q

-- an item that was asked for, and then the others
Walked-cons :
    (check : List ℕ → Option Bool) (seen next : Seen) (p : ℕ) (ps : List ℕ) (up : Bool)
    (r : Bool × Seen)
    → NotIn p ps
    → check (seen.items p).addr ≡ some up
    → Updated seen p up next
    → Walked check next ps r
    → Walked check seen (p ∷ ps) r
Walked-cons check seen next p ps up r apart asked first rest =
    let x = seen.items p in
    let same = view-kept next.items seen.items p ps apart first.others in
    let more = changes-cons check x (map seen.items ps) up asked in
    let tail = ap (changes check) same in
    record {
      done =
          rest.done
          ∙ ap (all_known check) same
          ∙ sym (all_known-cons check x (map seen.items ps) up asked);
      n = omega (
        arith,
        rest.n,
        first.n,
        ap length more,
        ap length tail,
        length-append (change x up) (changes check (map seen.items ps)),
      );
      calls =
          rest.calls
          ∙ ap₂ ◌++◌ first.calls tail
          ∙ append_assoc seen.calls (change x up) (changes check (map seen.items ps))
          ∙ sym (ap (◌++◌ seen.calls) more);
      items =
          ap₂ ◌∷◌ (rest.others p apart ∙ first.item) (rest.items ∙ ap (refreshed check) same)
          ∙ sym (refreshed-cons check x (map seen.items ps) up asked);
      others = λ q (ne, out). rest.others q out ∙ first.others q ne;
    }

Walked-none :
    (check : List ℕ → Option Bool) (seen : Seen) (p : ℕ) (ps : List ℕ)
    → check (seen.items p).addr ≡ none
    → Walked check seen (p ∷ ps) (false, seen)
Walked-none check seen p ps e =
    let (no_calls, as_before, unknown) = unknown-cons check (seen.items p) (map seen.items ps) e in
    record {
      done = sym unknown;
      n = omega (arith, ap length no_calls);
      calls = sym (ap (◌++◌ seen.calls) no_calls ∙ append-nil seen.calls);
      items = sym as_before;
      others = λ q out. refl;
    }

Walked-nil : (check : List ℕ → Option Bool) (seen : Seen) → Walked check seen [] (true, seen)
unfolding changes refreshed all_known
Walked-nil check seen = record {
  done = refl;
  n = omega arith;
  calls = sym (append-nil seen.calls);
  items = refl;
  others = λ q out. refl;
}

module _ {queue : TailQueue} (check : List ℕ → Option Bool) where
  watch_loop_lem :
      (fuel : ℕ) (list : LinkedList queue ℕ) (xs ys : List (ℕ × ℕ)) (seen : Seen)
      → Holds list (xs ++ ys)
      → length ys < fuel
      → IsDistinct (values ys)
      → Returns (Walked check seen (values ys)) (watch_loop check fuel list (head? (addrs ys)) seen)
  unfolding watch_loop
  watch_loop_lem zero list xs ys seen h l apart = absurd (omega arith)
  watch_loop_lem (suc fuel) list xs [] seen h l apart = returns (Walked-nil check seen)
  watch_loop_lem (suc fuel) list xs ((a, p) ∷ ys) seen h l (out, apart) =
      let live = Cells-value list.item list.fresh xs a p ys h.cells in
      rw (list_iter_value-live list a p live) (elim (Option-cases (check (seen.items p).addr)) [
        | inl e ↦ rw e (returns (Walked-none check seen p (values ys) e))
        | inr (up, e) ↦
            rw (e, list_next-Holds list xs a p ys h)
              (Returns-map
                (watch_loop_lem fuel list (xs ++ ((a, p) ∷ [])) ys (update_state seen p up)
                  (rw (append_assoc xs ((a, p) ∷ []) ys) h) (omega arith) apart)
                λ r rest.
                  Walked-cons check seen (update_state seen p up) p (values ys) up r out e
                    (update_state-Updated seen p up) rest)
      ])

-- what a round is to do
pub record Round {queue : TailQueue} (check : List ℕ → Option Bool) (xs : List AddrItem)
    (r : Option ℕ × List Call × AddrWatcher queue) : Type 0 where
  pub calls : r.1 ≡ changes check xs
  pub result : r.0 ≡ (if all_known check xs then some (length r.1) else none)
  pub watches : Watches r.2 (refreshed check xs)

pub watch-Round :
    {queue : TailQueue} (check : List ℕ → Option Bool) (watcher : AddrWatcher queue)
    (xs : List AddrItem)
    → Watches watcher xs
    → Returns
        (λ r. Round check xs r × (r.2.timeout ≡ watcher.timeout) × (r.2.loop ≡ watcher.loop))
        (addr_watcher_watch check watcher)
unfolding addr_watcher_watch
watch-Round check watcher xs w =
    let (es, h, e) = w.contents in
    let count = h.count in
    let start : Seen = record { n = 0; calls = []; items = watcher.items } in
    let walk : Returns (Walked check start w.pointers)
        (watch_loop check (suc watcher.addrs.fresh) watcher.addrs (head? (addrs es)) start) =
      rw (sym e) (
        watch_loop_lem check (suc watcher.addrs.fresh) watcher.addrs [] es start h (omega arith)
          (rw e w.distinct)) in
    rw (list_first-Holds watcher.addrs es h) (
      Returns-bind walk (λ (done, seen) walked. returns (
        record {
          calls = walked.calls ∙ ap (changes check) w.items;
          result =
              ap₂ (λ (b : Bool) (k : ℕ). if b then some k else none)
                (walked.done ∙ ap (all_known check) w.items)
                (omega (arith, walked.n, ap length walked.calls));
          watches = record {
            pointers = w.pointers;
            contents = w.contents;
            distinct = w.distinct;
            below = w.below;
            items = walked.items ∙ ap (refreshed check) w.items;
          };
        },
        refl,
        refl,
      )))

-- On a watcher of the items `xs`, addr_watcher_watch makes a call for each item whose state has
-- changed, in the order of the list, up to the first that addrwatch fails for, and notes the states
-- in the items; it returns the number of the calls, or -1 if addrwatch failed. A second round in which
-- addrwatch gives the same results makes no call and returns 0, or -1 again.
pub addr_watcher_watch_lem :
    {queue : TailQueue} (check : List ℕ → Option Bool) (watcher : AddrWatcher queue)
    (xs : List AddrItem)
    → Watches watcher xs
    → Returns (Round check xs) (addr_watcher_watch check watcher)
      × Returns
          (λ (result, calls, after).
            (calls ≡ []) × (result ≡ (if all_known check xs then some 0 else none)))
          (addr_watcher_watch check watcher >>= λ (_, _, after). addr_watcher_watch check after)
addr_watcher_watch_lem check watcher xs w =
    let first = Returns-map (watch-Round check watcher xs w) (λ r (round, timeout, loop). round) in
    (
      first,
      Returns-bind first (λ (_, _, after) round.
          Returns-map (watch-Round check after (refreshed check xs) round.watches)
            (λ (result, calls, _) (again, timeout, loop).
              let quiet = again.calls ∙ changes-refreshed check xs in
              (
                quiet,
                again.result
                    ∙ ap₂ (λ (b : Bool) (k : ℕ). if b then some k else none)
                        (all_known-refreshed check xs) (ap length quiet),
              ))),
    )
