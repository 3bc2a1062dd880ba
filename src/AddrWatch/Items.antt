-- ===== src/AddrWatch/Items.antt =====
-- What a round of addr_watcher_watch (addrwatch.c) is to do with the items of a watcher.
use mathlib.Core.Path.{ap₂}
use bflib.Base.{
  ℕ, ◌≡◌, refl, sym, ap, ◌∙◌, Bool, true, false, Option, none, some, List, [], ◌∷◌, ◌++◌, arith,
  Option-cases, inl, inr, if◌then◌else◌,
}
use bflib.AddrWatch.{State, st_null, st_up, st_down, AddrItem, Call, same_state}

abbrev pub seen_state : Bool → State
seen_state up = if up then st_up else st_down

-- the call for an item that was found up or down: none if it was known
abbrev pub change : AddrItem → Bool → List Call
change x up =
    if same_state (seen_state up) x.state then [] else record { addr = x.addr; up = up } ∷ []

module _ (check : List ℕ → Option Bool) where
  -- the calls for the items up to the first that cannot be asked for
  unfoldable pub changes : List AddrItem → List Call
  changes [] = []
  changes (x ∷ xs) =
      let rest = changes xs in elim (check x.addr) [ none ↦ [] | some up ↦ change x up ++ rest ]

  -- their states as they were seen
  unfoldable pub refreshed : List AddrItem → List AddrItem
  refreshed [] = []
  refreshed (x ∷ xs) =
      let rest = refreshed xs in
      elim (check x.addr) [
        | none ↦ x ∷ xs
        | some up ↦ record { addr = x.addr; state = seen_state up } ∷ rest
      ]

  -- every item can be asked for
  unfoldable pub all_known : List AddrItem → Bool
  all_known [] = true
  all_known (x ∷ xs) =
      let rest = all_known xs in elim (check x.addr) [ none ↦ false | some up ↦ rest ]

pub same_state-eq : (a b : State) → same_state a b ≡ true → b ≡ a
same_state-eq st_null st_null e = refl
same_state-eq st_up st_up e = refl
same_state-eq st_down st_down e = refl
same_state-eq st_null st_up e = absurd (ground arith)
same_state-eq st_null st_down e = absurd (ground arith)
same_state-eq st_up st_null e = absurd (ground arith)
same_state-eq st_up st_down e = absurd (ground arith)
same_state-eq st_down st_null e = absurd (ground arith)
same_state-eq st_down st_up e = absurd (ground arith)

pub change-known :
    (x : AddrItem) (up : Bool) → same_state (seen_state up) x.state ≡ true → change x up ≡ []
change-known x up e = rw e refl

pub change-new :
    (x : AddrItem) (up : Bool)
    → same_state (seen_state up) x.state ≡ false
    → change x up ≡ record { addr = x.addr; up = up } ∷ []
change-new x up e = rw e refl

module _ (check : List ℕ → Option Bool) (x : AddrItem) (xs : List AddrItem) where
  pub changes-cons :
      (up : Bool)
      → check x.addr ≡ some up
      → changes check (x ∷ xs) ≡ change x up ++ changes check xs
  unfolding changes
  changes-cons up e = rw (e, changes) refl

  pub refreshed-cons :
      (up : Bool)
      → check x.addr ≡ some up
      → refreshed check (x ∷ xs)
        ≡ record { addr = x.addr; state = seen_state up } ∷ refreshed check xs
  unfolding refreshed
  refreshed-cons up e = rw (e, refreshed) refl

  pub all_known-cons :
      (up : Bool) → check x.addr ≡ some up → all_known check (x ∷ xs) ≡ all_known check xs
  unfolding all_known
  all_known-cons up e = rw (e, all_known) refl

  pub unknown-cons :
      check x.addr ≡ none
      → (changes check (x ∷ xs) ≡ [])
        × (refreshed check (x ∷ xs) ≡ x ∷ xs)
        × (all_known check (x ∷ xs) ≡ false)
  unfolding changes refreshed all_known
  unknown-cons e = rw (e, changes, refreshed, all_known) (refl, refl, refl)

-- asking again changes nothing
change-again :
    (a : List ℕ) (up : Bool) → change (record { addr = a; state = seen_state up }) up ≡ []
change-again a true = refl
change-again a false = refl

pub changes-refreshed :
    (check : List ℕ → Option Bool) (xs : List AddrItem) → changes check (refreshed check xs) ≡ []
unfolding changes refreshed
changes-refreshed check [] = refl
changes-refreshed check (x ∷ xs) = elim (Option-cases (check x.addr)) [
  | inl e ↦
      let (no_calls, as_before, _) = unknown-cons check x xs e in
      ap (changes check) as_before ∙ no_calls
  | inr (up, e) ↦
      let seen : AddrItem = record { addr = x.addr; state = seen_state up } in
      ap (changes check) (refreshed-cons check x xs up e)
      ∙ changes-cons check seen (refreshed check xs) up e
      ∙ ap₂ ◌++◌ (change-again x.addr up) (changes-refreshed check xs)
]

pub all_known-refreshed :
    (check : List ℕ → Option Bool) (xs : List AddrItem)
    → all_known check (refreshed check xs) ≡ all_known check xs
unfolding all_known refreshed
all_known-refreshed check [] = refl
all_known-refreshed check (x ∷ xs) = elim (Option-cases (check x.addr)) [
  | inl e ↦ let (_, as_before, _) = unknown-cons check x xs e in ap (all_known check) as_before
  | inr (up, e) ↦
      let seen : AddrItem = record { addr = x.addr; state = seen_state up } in
      ap (all_known check) (refreshed-cons check x xs up e)
      ∙ all_known-cons check seen (refreshed check xs) up e
      ∙ all_known-refreshed check xs
      ∙ sym (all_known-cons check x xs up e)
]
