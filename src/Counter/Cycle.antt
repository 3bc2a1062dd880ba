-- ===== src/Counter/Cycle.antt =====
-- What a sequence of counter_next calls returns (counter.c).
use native.Mathlib.Nat.{add-zero, add_assoc, mod-add-mod, mod_self, mod-eq_of_lt}
use bflib.Base.{
  ℕ, zero, suc, ◌+◌, ◌-◌, ◌%◌, ◌^◌, ◌≤◌, ◌<◌, ◌≡◌, ◌≢◌, ◌∙◌, sym, ap, arith, inl, inr, Bool-cases,
  leb, if◌then◌else◌,
}
use bflib.Counter.{Counter, counter_next, counter_reset}

pub record IsValid (c : Counter) : Type 0 where
  pub from : c.min ≤ c.n
  pub upto : c.n ≤ c.max
  pub nonempty : c.min < c.max
  pub fits : c.max < 2 ^ 64

-- the counter after `k` calls of counter_next
pub after : ℕ → Counter → Counter
after zero c = c
after (suc k) c = after k (counter_next c).1

-- a call returns a number of [min, max) and keeps the counter valid, with the same ends
pub counter_next-IsValid :
    (c : Counter)
    → IsValid c
    → IsValid (counter_next c).1
      × (c.min ≤ (counter_next c).0)
      × ((counter_next c).0 < c.max)
      × ((counter_next c).1.min ≡ c.min)
      × ((counter_next c).1.max ≡ c.max)
unfolding counter_next
counter_next-IsValid c v = ground arith

-- the cycle, when the counter stands `x` places into its `d` places
wrap_once : (x d : ℕ) → x ≤ d → 0 < d → (if leb d x then 0 else x) ≡ x % d
wrap_once x d h p = elim (Bool-cases (leb d x)) [
  | inl full ↦ let e : x ≡ d = ground arith in rw (full, e) (sym (mod_self d))
  | inr room ↦ rw room (sym (mod-eq_of_lt (ground arith)))
]

next_first :
    (c : Counter) → IsValid c → (counter_next c).0 ≡ c.min + (c.n - c.min) % (c.max - c.min)
unfolding counter_next
next_first c v = ground (arith, wrap_once (c.n - c.min) (c.max - c.min))

-- a call moves the place in the cycle on by one
next_place :
    (c : Counter) → IsValid c → (counter_next c).1.n - c.min ≡ (c.n - c.min) % (c.max - c.min) + 1
unfolding counter_next
next_place c v = ground (arith, wrap_once (c.n - c.min) (c.max - c.min))

shift_place : (x d k : ℕ) → (x % d + 1 + k) % d ≡ (x + suc k) % d
shift_place x d k =
    rw (add_assoc (x % d) 1 k, mod-add-mod x d (1 + k)) (ap (λ (t : ℕ). (x + t) % d) (omega arith))

-- the call after `k` calls returns the number `k` places further round the cycle
pub counter_next-after :
    (k : ℕ) (c : Counter)
    → IsValid c
    → (counter_next (after k c)).0 ≡ c.min + (c.n - c.min + k) % (c.max - c.min)
unfolding after
counter_next-after zero c v = rw add-zero (next_first c v)
counter_next-after (suc k) c v =
    let (valid, above, below, low, high) = counter_next-IsValid c v in
    let ih = counter_next-after k (counter_next c).1 valid in
    let place = rw (low, high, next_place c v) at ih in
    place ∙ ap (λ (t : ℕ). c.min + t) (shift_place (c.n - c.min) (c.max - c.min) k)

-- counter_reset does not restart the count: of a counter that stands inside its range, the next call
-- returns the number where it stood, and not `min`
counter_reset-next :
    (c : Counter)
    → c.min < c.n
    → c.n < c.max
    → ((counter_next (counter_reset c)).0 ≡ c.n) × ((counter_next (counter_reset c)).0 ≢ c.min)
unfolding counter_reset counter_next
counter_reset-next c p q = ground arith
