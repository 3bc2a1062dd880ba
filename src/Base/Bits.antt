-- ===== src/Base/Bits.antt =====
-- `|` of disjoint fields and `&` with a mask of low bits, as arithmetic, for every width.
use Prim.Native.Nat.{
  ℕ, zero, suc, ◌+◌, ◌-◌, ◌*◌, ◌/◌, ◌%◌, ◌^◌, ◌≤◌, ◌<◌, min, max, bit_and, bit_or, digits,
  bit_and-bitwise, bit_or-bitwise,
}
use mathlib.Core.Path.{◌≡◌, refl, ap, ◌∙◌}
use native.Mathlib.Nat.{
  pow-suc, div-div-eq-div-mul, div-add-mod', mod-lt, mod-eq_of_lt, mul-add-mod_self_right,
}
use native.Mathlib.Omega.{arith}

-- The digit recursions that the native operations stand for, with their fuel apart.
abbrev or_digits : ℕ → ℕ → ℕ → ℕ
or_digits f a b = digits (λ b. b) max f a b

or_fuel : (f g a b : ℕ) → a ≤ f → a ≤ g → or_digits f a b ≡ or_digits g a b
or_fuel zero zero a b p q = refl
or_fuel zero (suc g) zero b p q = refl
or_fuel zero (suc g) (suc a) b p q = absurd (omega arith)
or_fuel (suc f) zero zero b p q = refl
or_fuel (suc f) zero (suc a) b p q = absurd (omega arith)
or_fuel (suc f) (suc g) zero b p q = refl
or_fuel (suc f) (suc g) (suc a) b p q =
    omega (arith, or_fuel f g (suc a / 2) (b / 2) (omega arith) (omega arith))

or_zero : (b : ℕ) → bit_or 0 b ≡ b
or_zero b = bit_or-bitwise 0 b

-- The lowest digit of a disjunction, and the others.
bit_or_step : (a b : ℕ) → bit_or a b ≡ bit_or (a / 2) (b / 2) * 2 + max (a % 2) (b % 2)
bit_or_step zero b = omega (arith, or_zero b, or_zero (b / 2))
bit_or_step (suc a) b = omega (
  arith,
  bit_or-bitwise (suc a) b,
  bit_or-bitwise (suc a / 2) (b / 2),
  or_fuel a (suc a / 2) (suc a / 2) (b / 2) (omega arith) (omega arith),
)

abbrev and_digits : ℕ → ℕ → ℕ → ℕ
and_digits f a b = digits (λ b. zero) min f a b

and_fuel : (f g a b : ℕ) → a ≤ f → a ≤ g → and_digits f a b ≡ and_digits g a b
and_fuel zero zero a b p q = refl
and_fuel zero (suc g) zero b p q = refl
and_fuel zero (suc g) (suc a) b p q = absurd (omega arith)
and_fuel (suc f) zero zero b p q = refl
and_fuel (suc f) zero (suc a) b p q = absurd (omega arith)
and_fuel (suc f) (suc g) zero b p q = refl
and_fuel (suc f) (suc g) (suc a) b p q =
    omega (arith, and_fuel f g (suc a / 2) (b / 2) (omega arith) (omega arith))

and_zero : (b : ℕ) → bit_and 0 b ≡ 0
and_zero b = bit_and-bitwise 0 b

bit_and_step : (a b : ℕ) → bit_and a b ≡ bit_and (a / 2) (b / 2) * 2 + min (a % 2) (b % 2)
bit_and_step zero b = omega (arith, and_zero b, and_zero (b / 2))
bit_and_step (suc a) b = omega (
  arith,
  bit_and-bitwise (suc a) b,
  bit_and-bitwise (suc a / 2) (b / 2),
  and_fuel a (suc a / 2) (suc a / 2) (b / 2) (omega arith) (omega arith),
)

-- `a` is bounded by a fuel, since the steps halve it.
bit_or-zero_below : (f a : ℕ) → a ≤ f → bit_or a 0 ≡ a
bit_or-zero_below f zero h = refl
bit_or-zero_below zero (suc a) h = absurd (omega arith)
bit_or-zero_below (suc f) (suc a) h =
    omega (arith, bit_or_step (suc a) 0, bit_or-zero_below f (suc a / 2) (omega arith))

bit_and-zero_below : (f a : ℕ) → a ≤ f → bit_and a 0 ≡ 0
bit_and-zero_below f zero h = refl
bit_and-zero_below zero (suc a) h = absurd (omega arith)
bit_and-zero_below (suc f) (suc a) h =
    omega (arith, bit_and_step (suc a) 0, bit_and-zero_below f (suc a / 2) (omega arith))

pub pow_pos : (k : ℕ) → 0 < 2 ^ k
pow_pos zero = omega arith
pow_pos (suc k) = omega (arith, pow-suc 2 k, pow_pos k)

double-mul : (q k : ℕ) → q * 2 ^ suc k ≡ 2 * (q * 2 ^ k)
double-mul q k = omega (arith, ap (λ (t : ℕ). q * t) (pow-suc 2 k))

-- `q << k | r`, where `r` fits the `k` bits.
pub bit_or-shift : (k q r : ℕ) → r < 2 ^ k → bit_or (q * 2 ^ k) r ≡ q * 2 ^ k + r
bit_or-shift zero q r h = ground (arith, bit_or-zero_below q q)
bit_or-shift (suc k) q r h = ground (
  arith,
  bit_or_step (q * 2 ^ suc k) r,
  double-mul q k,
  pow-suc 2 k,
  bit_or-shift k q (r / 2) (omega (arith, pow-suc 2 k)),
)

pub mod_unique : (q d r : ℕ) → r < d → (q * d + r) % d ≡ r
mod_unique q d r h = mul-add-mod_self_right q d r ∙ mod-eq_of_lt h

mod-pow-suc : (a k : ℕ) → a % 2 ^ suc k ≡ a / 2 % 2 ^ k * 2 + a % 2
mod-pow-suc a k =
    let q = a / 2 / 2 ^ k in
    let r = a / 2 % 2 ^ k * 2 + a % 2 in
    let split : a ≡ q * 2 ^ suc k + r =
      omega (arith, div-add-mod' (a / 2) (2 ^ k), double-mul q k) in
    let below : a / 2 % 2 ^ k < 2 ^ k = mod-lt (a / 2) (pow_pos k) in
    ap (λ (t : ℕ). t % 2 ^ suc k) split ∙ mod_unique q (2 ^ suc k) r (omega (arith, pow-suc 2 k))

-- The mask of `k` ones takes the remainder by `2 ^ k`.
pub bit_and-mask : (k a : ℕ) → bit_and a (2 ^ k - 1) ≡ a % 2 ^ k
bit_and-mask zero a = omega (arith, bit_and-zero_below a a (omega arith))
bit_and-mask (suc k) a = ground (
  arith,
  bit_and_step a (2 ^ suc k - 1),
  pow-suc 2 k,
  pow_pos k,
  mod-pow-suc a k,
  bit_and-mask k (a / 2),
)

two-mul-pow : (k : ℕ) → 2 * 2 ^ k ≡ 2 ^ suc k
two-mul-pow k = omega (arith, pow-suc 2 k)

-- One bit, tested in its place.
pub bit_and-bit : (k a : ℕ) → bit_and a (2 ^ k) ≡ a / 2 ^ k % 2 * 2 ^ k
bit_and-bit zero a = omega (arith, bit_and-mask 1 a)
bit_and-bit (suc k) a = ground (
  arith,
  bit_and_step a (2 ^ suc k),
  pow-suc 2 k,
  bit_and-bit k (a / 2),
  div-div-eq-div-mul a 2 (2 ^ k),
  double-mul (a / 2 ^ suc k % 2) k,
  ap (λ (t : ℕ). a / t % 2 * 2 ^ k) (two-mul-pow k),
)

digit_bound : (r s d b : ℕ) → r < d → s < b → r * b + s < d * b
digit_bound r s d b p q = grind arith

-- A remainder by a product, digit by digit.
pub mod-mul : (a d b : ℕ) → 0 < d → 0 < b → a % (d * b) ≡ a / b % d * b + a % b
mod-mul a d b p q =
    let rest = a / b % d * b + a % b in
    let split : a ≡ a / b / d * (d * b) + rest =
      omega (arith, div-add-mod' a b, ap (λ (t : ℕ). t * b) (div-add-mod' (a / b) d)) in
    ap (λ (t : ℕ). t % (d * b)) split
    ∙ mod_unique (a / b / d) (d * b) rest
        (digit_bound (a / b % d) (a % b) d b (mod-lt (a / b) p) (mod-lt a q))
