-- ===== src/Common/Calls.antt =====
-- How a C call ends: it returns, the process ends by `exit` or `abort`, or the behaviour is
-- undefined (an access outside an array).
use Prim.Native.Nat.{ℕ}
use mathlib.Core.Path.{◌≡◌}

pub data Outcome {ℓ} (A : Type ℓ) : Type ℓ where
  returns : A → Outcome A
  aborts : Outcome A
  exits : ℕ → Outcome A
  undefined : Outcome A

infixl 5 ◌>>=◌
abbrev pub ◌>>=◌ {ℓ κ} : {A : Type ℓ} {B : Type κ} → Outcome A → (A → Outcome B) → Outcome B
returns a >>= f = f a
aborts >>= f = aborts
exits n >>= f = exits n
undefined >>= f = undefined

pub returns-injective {ℓ} : {A : Type ℓ} {a b : A} → returns a ≡ returns b → a ≡ b
returns-injective e = cc
