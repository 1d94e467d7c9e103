-- ===== src/Common/Results.antt =====
-- Code that may throw: a result, or the message of its exception.
use package.kinova_gen3_ros.Common.Text.{String}
use mathlib.Core.Path.{◌≡◌, refl}
use mathlib.Core.Logic.{◌⊎◌, inl, inr}
use mathlib.Core.Bool.{Bool, true, false}

pub data Result {ℓ} (A : Type ℓ) : Type ℓ where
  returns : A → Result A
  throws : String → Result A

infixl 5 ◌>>=◌ ◌>>◌
abbrev pub ◌>>=◌ {ℓ κ} : {A : Type ℓ} {B : Type κ} → Result A → (A → Result B) → Result B
returns a >>= f = f a
throws e >>= f = throws e

abbrev pub ◌>>◌ {ℓ} : {B : Type ℓ} → Result (Unit {0}) → Result B → Result B
m >> k = m >>= λ _. k

-- `if (!test) throw ...`
abbrev pub require : Bool → String → Result (Unit {0})
require true message = returns tt
require false message = throws message

-- The parts of a chain that returned.
pub >>=-eq-returns {ℓ κ} :
    {A : Type ℓ} {B : Type κ} (m : Result A) (f : A → Result B) {b : B}
    → (m >>= f) ≡ returns b
    → (a : A) × (m ≡ returns a) × (f a ≡ returns b)
>>=-eq-returns (returns a) f e = (a, refl, e)
>>=-eq-returns (throws why) f e = cc

pub require-eq-returns {ℓ} :
    {B : Type ℓ} (test : Bool) (why : String) (k : Result B) {b : B}
    → (require test why >> k) ≡ returns b
    → (test ≡ true) × (k ≡ returns b)
require-eq-returns true why k e = (refl, e)
require-eq-returns false why k e = cc

pub Result-cases {ℓ} :
    {A : Type ℓ} (m : Result A) → ((a : A) × (m ≡ returns a)) ⊎ ((why : String) × (m ≡ throws why))
Result-cases (returns a) = inl (a, refl)
Result-cases (throws why) = inr (why, refl)

-- The same as a rule: from a chain that returned, go on with what its first step returned.
pub after_step {ℓ κ μ} :
    {A : Type ℓ} {B : Type κ} {P : Type μ} (m : Result A) (f : A → Result B) {b : B}
    → (m >>= f) ≡ returns b
    → ((a : A) → m ≡ returns a → f a ≡ returns b → P)
    → P
after_step (returns a) f e k = k a refl e
after_step (throws why) f e k = absurd cc
