-- ===== src/Base/Flow.antt =====
-- How a call ends: with a value, at a failed BOOST_ASSERT, in undefined behaviour (a null or an
-- out-of-range pointer is used), or, in the model only, at the end of a loop's fuel.
use mathlib.Core.Bool.{Bool, true, false}
use mathlib.Core.Path.{◌≡◌, refl}

pub data Outcome {ℓ} (A : Type ℓ) : Type ℓ where
  ok : A → Outcome A
  assert_failed undefined out_of_fuel : Outcome A

infixl 5 ◌>>=◌ ◌>>◌
abbrev pub ◌>>=◌ {ℓ κ} : {A : Type ℓ} {B : Type κ} → Outcome A → (A → Outcome B) → Outcome B
ok a >>= f = f a
assert_failed >>= f = assert_failed
undefined >>= f = undefined
out_of_fuel >>= f = out_of_fuel

abbrev pub ◌>>◌ {ℓ} : {B : Type ℓ} → Outcome (Unit {0}) → Outcome B → Outcome B
m >> k = m >>= λ _. k

-- BOOST_ASSERT(b).
abbrev pub boost_assert : Bool → Outcome (Unit {0})
boost_assert true = ok tt
boost_assert false = assert_failed

-- The access is inside its buffer or array.
abbrev pub in_bounds : Bool → Outcome (Unit {0})
in_bounds true = ok tt
in_bounds false = undefined

pub bind_assoc :
    {A B C : Type 0} (m : Outcome A) (k : A → Outcome B) (h : B → Outcome C)
    → (m >>= λ a. k a >>= h) ≡ ((m >>= k) >>= h)
bind_assoc (ok a) k h = refl
bind_assoc assert_failed k h = refl
bind_assoc undefined k h = refl
bind_assoc out_of_fuel k h = refl
