-- ===== src/Common/Tests.antt =====
-- Boolean tests, the conditional, and equality as an interface with instances.
use Prim.Native.Nat.{ℕ, compare, Ordering}
use Prim.Native.String.{String}
use mathlib.Core.Path.{◌≡◌, refl}
use mathlib.Core.Logic.{◌↔◌, ◌⊎◌, inl, inr}
use mathlib.Core.Bool.{Bool, true, false, ◌&&◌}
use mathlib.Core.Option.{Option, none, some}
use mathlib.Core.List.{List, [], ◌∷◌}
use native.Mathlib.Omega.{arith}
use text.Mathlib.Text.{◌==◌ as str_eq}
use text.Mathlib.TextEquality.{eq_iff}

abbrev pub ltb : ℕ → ℕ → Bool
ltb a b = elim (compare a b) [ Ordering.lt ↦ true | _ ↦ false ]

abbrev pub leb : ℕ → ℕ → Bool
leb a b = elim (compare a b) [ Ordering.gt ↦ false | _ ↦ true ]

abbrev pub nat_eq : ℕ → ℕ → Bool
nat_eq a b = elim (compare a b) [ Ordering.eq ↦ true | _ ↦ false ]

pub nat_eq_iff : (a b : ℕ) → (nat_eq a b ≡ true) ↔ (a ≡ b)
nat_eq_iff a b = ground arith

infix 1 if◌then◌else◌
abbrev pub if◌then◌else◌ {ℓ} : {A : Type ℓ} → Bool → A → A → A
if true then x else y = x
if false then x else y = y

module _ {ℓ} {A : Type ℓ} (x y : A) {b : Bool} where
  -- A test that is known, where a record must stay whole that `rw` by its field would take apart.
  pub if_yes : b ≡ true → (if b then x else y) ≡ x
  if_yes e = rw e

  pub if_no : b ≡ false → (if b then x else y) ≡ y
  if_no e = rw e

-- `operator==` of the types that the program compares, which tells equal values.
pub record Eq {ℓ} (A : Type ℓ) : Type ℓ where
  pub equals : (x y : A) → Bool
  pub equals_iff : (x y : A) → (equals x y ≡ true) ↔ (x ≡ y)

module _ {ℓ} {A : Type ℓ} (item : Eq A) where
  abbrev pub list_equals : List A → List A → Bool
  list_equals (x ∷ xs) (y ∷ ys) = item.equals x y && list_equals xs ys
  list_equals (x ∷ xs) [] = false
  list_equals [] (y ∷ ys) = false
  list_equals [] [] = true

  pub list_equals_iff : (xs ys : List A) → (list_equals xs ys ≡ true) ↔ (xs ≡ ys)
  list_equals_iff (x ∷ xs) (y ∷ ys) = ground (arith, item.equals_iff x y, list_equals_iff xs ys)
  list_equals_iff (x ∷ xs) [] = ground arith
  list_equals_iff [] (y ∷ ys) = ground arith
  list_equals_iff [] [] = (λ _. refl, λ _. refl)

instance abbrev pub list_eq {ℓ} : {A : Type ℓ} ⦃item : Eq A⦄ → Eq (List A)
list_eq ⦃item⦄ = record { equals = list_equals item; equals_iff = list_equals_iff item }

instance abbrev pub string_eq : Eq String
string_eq = record { equals = str_eq; equals_iff = eq_iff }

infix 50 ◌==◌
abbrev pub ◌==◌ {ℓ} : {A : Type ℓ} ⦃same : Eq A⦄ → (x y : A) → Bool
◌==◌ ⦃same⦄ x y = same.equals x y

instance abbrev pub ℕ_eq : Eq ℕ
ℕ_eq = record { equals = nat_eq; equals_iff = nat_eq_iff }

-- To split on a computed value and keep the equation.
pub Bool-cases : (b : Bool) → (b ≡ true) ⊎ (b ≡ false)
Bool-cases true = inl refl
Bool-cases false = inr refl

pub Option-cases {ℓ} : {A : Type ℓ} (o : Option A) → (o ≡ none) ⊎ ((a : A) × (o ≡ some a))
Option-cases none = inl refl
Option-cases (some a) = inr (a, refl)
