-- ===== src/AddrWatch/Loop/Plan.antt =====
-- The turns of addr_watcher_watchloop (addrwatch.c) that make a round, and what these rounds are to
-- do with the items of the watcher.
use bflib.Base.{
  ℕ, suc, ◌+◌, ◌*◌, ◌≤◌, ◌≡◌, refl, sym, ap, ◌∙◌, Bool, true, false, ◌||◌, Option, List, [], ◌∷◌,
  ◌++◌, map, length, length-append, arith, Option-cases, Bool-cases, inl, inr, ltb, if◌then◌else◌,
}
use bflib.Timer.Timeout.{micros}
use bflib.AddrWatch.{AddrItem, Call, same_state}
use bflib.AddrWatch.Items.{
  seen_state, change, changes, refreshed, all_known, changes-cons, refreshed-cons, unknown-cons,
  change-known, change-new,
}
use bflib.AddrWatch.Loop.{Turn}

-- the turns up to the first in which addr_watcher_breakloop is called
abbrev pub heard : List Turn → List Turn
heard [] = []
heard (t ∷ ts) = let rest = heard ts in t ∷ (if t.stopped then [] else rest)

abbrev pub is_stopped : List Turn → Bool
is_stopped [] = false
is_stopped (t ∷ ts) = let rest = is_stopped ts in t.stopped || rest

-- the turns later than `due`, in microseconds, and then `timeout` milliseconds later than the last
abbrev pub rounds : (timeout due : ℕ) → List Turn → List Turn
rounds timeout due [] = []
rounds timeout due (t ∷ ts) =
    let now = micros t.now in
    let rest = rounds timeout (if ltb due now then now + timeout * 1000 else due) ts in
    if ltb due now then t ∷ rest else rest

-- the calls made, whether addrwatch never failed, and the items
pub record Outcome : Type 0 where
  pub calls : List Call
  pub known : Bool
  pub items : List AddrItem

abbrev pub one_round : (List ℕ → Option Bool) → List AddrItem → Outcome
one_round check xs = record {
  calls = changes check xs;
  known = all_known check xs;
  items = refreshed check xs;
}

abbrev pub nothing : List AddrItem → Outcome
nothing xs = record { calls = []; known = true; items = xs }

-- one outcome, and the next unless addrwatch failed
abbrev pub sequel : Outcome → Outcome → Outcome
sequel o o' =
    if o.known
    then record { calls = o.calls ++ o'.calls; known = o'.known; items = o'.items }
    else o

-- one round after the other, up to the first that fails
abbrev pub outcome : List AddrItem → List Turn → Outcome
outcome xs [] = nothing xs
outcome xs (t ∷ ts) =
    let rest = outcome (refreshed t.check xs) ts in sequel (one_round t.check xs) rest

pub rounds-due :
    (t : Turn) (ts : List Turn) (timeout due : ℕ)
    → ltb due (micros t.now) ≡ true
    → rounds timeout due (t ∷ ts) ≡ t ∷ rounds timeout (micros t.now + timeout * 1000) ts
rounds-due t ts timeout due e = rw e refl

pub rounds-idle :
    (t : Turn) (ts : List Turn) (timeout due : ℕ)
    → ltb due (micros t.now) ≡ false
    → rounds timeout due (t ∷ ts) ≡ rounds timeout due ts
rounds-idle t ts timeout due e = rw e refl

pub rounds-unless :
    (stopped : Bool) (timeout due : ℕ) (ts : List Turn)
    → rounds timeout due (if stopped then [] else ts)
      ≡ (if stopped then [] else rounds timeout due ts)
rounds-unless true timeout due ts = refl
rounds-unless false timeout due ts = refl

abbrev pub addresses : List AddrItem → List (List ℕ)
addresses xs = map (λ x. x.addr) xs

refreshed-addresses :
    (check : List ℕ → Option Bool) (xs : List AddrItem)
    → addresses (refreshed check xs) ≡ addresses xs
unfolding refreshed
refreshed-addresses check [] = refl
refreshed-addresses check (x ∷ xs) = elim (Option-cases (check x.addr)) [
  | inl e ↦ let (_, as_before, _) = unknown-cons check x xs e in ap addresses as_before
  | inr (up, e) ↦
      ap addresses (refreshed-cons check x xs up e) ∙ ap (◌∷◌ x.addr) (refreshed-addresses check xs)
]

sequel-addresses :
    (calls : List Call) (known : Bool) (items : List AddrItem) (o : Outcome) (kept : List (List ℕ))
    → addresses items ≡ kept
    → addresses o.items ≡ kept
    → addresses (sequel (record { calls = calls; known = known; items = items }) o).items ≡ kept
sequel-addresses calls true items o kept e e' = e'
sequel-addresses calls false items o kept e e' = e

pub outcome-addresses :
    (xs : List AddrItem) (ts : List Turn) → addresses (outcome xs ts).items ≡ addresses xs
outcome-addresses xs [] = refl
outcome-addresses xs (t ∷ ts) =
    let next = refreshed-addresses t.check xs in
    sequel-addresses (changes t.check xs) (all_known t.check xs) (refreshed t.check xs)
      (outcome (refreshed t.check xs) ts) (addresses xs) next
      (outcome-addresses (refreshed t.check xs) ts ∙ next)

length-addresses : (xs : List AddrItem) → length (addresses xs) ≡ length xs
length-addresses [] = refl
length-addresses (x ∷ xs) = ap suc (length-addresses xs)

pub length-refreshed :
    (check : List ℕ → Option Bool) (xs : List AddrItem) → length (refreshed check xs) ≡ length xs
length-refreshed check xs =
    sym (length-addresses (refreshed check xs))
    ∙ ap length (refreshed-addresses check xs)
    ∙ length-addresses xs

length-change : (x : AddrItem) (up : Bool) → length (change x up) ≤ 1
length-change x up = elim (Bool-cases (same_state (seen_state up) x.state)) [
  | inl e ↦ omega (arith, ap length (change-known x up e))
  | inr e ↦ omega (arith, ap length (change-new x up e))
]

-- a round makes at most one call for an item
pub length-changes :
    (check : List ℕ → Option Bool) (xs : List AddrItem) → length (changes check xs) ≤ length xs
unfolding changes
length-changes check [] = omega arith
length-changes check (x ∷ xs) = elim (Option-cases (check x.addr)) [
  | inl e ↦ let (no_calls, _, _) = unknown-cons check x xs e in omega (arith, ap length no_calls)
  | inr (up, e) ↦ omega (
    arith,
    ap length (changes-cons check x xs up e),
    length-append (change x up) (changes check xs),
    length-change x up,
    length-changes check xs,
  )
]
