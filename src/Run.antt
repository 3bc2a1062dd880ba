-- ===== src/Run.antt =====
-- How a call of the C code ends in the model, and the rules for calls that end well.
use mathlib.Core.Path.{subst}
use bflib.Base.{◌≡◌, refl, Bool, true, false, if◌then◌else◌}

-- A returned value, an access outside an allocated block, or the fuel of a loop running out.
pub data Run (A : Type 0) : Type 0 where
  ok : A → Run A
  fault out_of_fuel : Run A

infixl 5 ◌>>=◌
abbrev pub ◌>>=◌ : {A B : Type 0} → Run A → (A → Run B) → Run B
fault >>= next = fault
out_of_fuel >>= next = out_of_fuel
ok result >>= next = next result

-- The call returns, and its value satisfies `Q`.
pub data Returns {A : Type 0} (Q : A → Type 0) : Run A → Type 0 where
  returns : {result : A} → Q result → Returns Q (ok result)

-- A test of the code, with its outcome known in each branch.
pub Returns-if :
    {A : Type 0} {Q : A → Type 0} {yes_run no_run : Run A} (test : Bool)
    → (test ≡ true → Returns Q yes_run)
    → (test ≡ false → Returns Q no_run)
    → Returns Q (if test then yes_run else no_run)
Returns-if false on_true on_false = on_false refl
Returns-if true on_true on_false = on_true refl

-- A postcondition weakened.
pub Returns-map :
    {A : Type 0} {P Q : A → Type 0} {run : Run A}
    → Returns P run
    → ((result : A) → P result → Q result)
    → Returns Q run
Returns-map (returns holds) weaken = returns (weaken _ holds)

-- One call after another.
pub Returns-bind :
    {A B : Type 0} {P : A → Type 0} {Q : B → Type 0} {run : Run A} {next : A → Run B}
    → Returns P run
    → ((result : A) → P result → Returns Q (next result))
    → Returns Q (run >>= next)
Returns-bind (returns holds) proof = proof _ holds

-- The value that a call returns.
pub Returns-result :
    {A : Type 0} {Q : A → Type 0} {run : Run A}
    → Returns Q run
    → (result : A) × (run ≡ ok result) × Q result
Returns-result (returns holds) = (_, refl, holds)

ok-injective : {A : Type 0} (a b : A) → ok a ≡ ok b → a ≡ b
ok-injective a b e = cc

-- What holds of a call that is known to return a value.
pub Returns-at :
    {A : Type 0} {Q : A → Type 0} {run : Run A} (value : A)
    → Returns Q run
    → run ≡ ok value
    → Q value
Returns-at {Q = Q} value (returns {result} holds) e = subst Q (ok-injective result value e) holds
