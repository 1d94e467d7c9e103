-- ===== src/Legs/Verdict/Ends.antt =====
-- plan_legs.h: what ends a chain first, and what is then reported.
use native.Mathlib.Decide.{dec_lt}
use mathlib.Core.Path.{subst}
use kinova_gen3_ros.Common.{
  ℕ, zero, suc, ◌+◌, ◌<◌, ◌≡◌, refl, ap, true, false, List, [], ◌∷◌, is_empty, ◌&&◌, ◌∙◌, some,
  if_yes, if_no, arith, ℕ_eq, Bool-cases, inl, inr,
}
use kinova_gen3_ros.Common.Text.{String, ◌++◌, to_string}
use kinova_gen3_ros.Externals.{Double}
use kinova_gen3_ros.Planner.{Outcome}
use kinova_gen3_ros.Legs.{Action, World, plan_legs, checked, leg_name}
use kinova_gen3_ros.Legs.Order.{leg, legs_upto, IsPlanned, checked-ok_iff}
use kinova_gen3_ros.Legs.Verdict.{reported, verdict, blend_verdict, reported-verdict}

-- "leg k/n: ", where the first leg is 1.
abbrev pub in_leg : ℕ → ℕ → String → String
in_leg k n why = ("leg " ++ (to_string (suc k) ++ ("/" ++ (to_string n ++ ": ")))) ++ why

abbrev pub Fails : {W : Type 0} → Outcome W → String → Type 0
Fails o why = (o.ok ≡ false) × (o.message ≡ why)

is_empty_nil {ℓ} : {A : Type ℓ} (xs : List A) → is_empty xs ≡ true → xs ≡ []
is_empty_nil [] e = refl
is_empty_nil (x ∷ xs) e = absurd cc

module _ {W : Type 0} ⦃d : Double W⦄ where
  checked_kept : (o : Outcome W) → (o.ok && is_empty o.trajectory.points) ≡ false → checked o ≡ o
  unfolding checked
  checked_kept o e = if_no _ _ e

  checked_empty :
      (o : Outcome W)
      → o.ok ≡ true
      → is_empty o.trajectory.points ≡ true
      → checked o ≡ record o { ok = false; message = "planner returned an empty trajectory" }
  unfolding checked
  checked_empty o y e =
      let both : (o.ok && is_empty o.trajectory.points) ≡ true = rw (y, e) refl in if_yes _ _ both

module _ {W : Type 0} ⦃d : Double W⦄ (w : World W) (n : ℕ) (start : List W) where
  abbrev pub blend_of_all : Outcome W
  blend_of_all = w.blended (legs_upto w start n)

  -- What ends the chain at its step `k`, a leg or, at `n`, the blend, and what it then reports.
  pub data EndsAt (k : ℕ) (o : Outcome W) : Type 0 where
    canceled : w.canceling k ≡ true → Fails o "canceled during planning" → EndsAt k o
    refused :
        k < n
        → w.canceling k ≡ false
        → (leg w start k).ok ≡ false
        → Fails o (in_leg k n (leg w start k).message)
        → EndsAt k o
    empty :
        k < n
        → w.canceling k ≡ false
        → (leg w start k).ok ≡ true
        → (leg w start k).trajectory.points ≡ []
        → Fails o (in_leg k n "planner returned an empty trajectory")
        → EndsAt k o
    unblended :
        k ≡ n
        → w.canceling k ≡ false
        → blend_of_all.ok ≡ false
        → Fails o ("blend: " ++ blend_of_all.message)
        → EndsAt k o
    blended : k ≡ n → w.canceling k ≡ false → blend_of_all.ok ≡ true → o ≡ blend_of_all → EndsAt k o

  -- Every leg before step `k` was planned, and no cancel met.
  abbrev pub PassedTo : ℕ → Type 0
  PassedTo k = (j : ℕ) → j < k → (w.canceling j ≡ false) × IsPlanned w start j

  PassedTo-suc :
      (k : ℕ) → PassedTo k → w.canceling k ≡ false → IsPlanned w start k → PassedTo (suc k)
  PassedTo-suc k before c this j h = elim (dec_lt j k) [
    | yes below ↦ before j below
    | no last ↦
        let e : k ≡ j = omega arith in
        subst (λ i. (w.canceling i ≡ false) × IsPlanned w start i) e (c, this)
  ]

  blend-EndsAt : (k : ℕ) → k ≡ n → EndsAt k (blend_verdict w n start)
  blend-EndsAt k e = elim (Bool-cases (w.canceling n)) [
    | inl c ↦ rw (if_yes _ _ c) (canceled (ap w.canceling e ∙ c) (refl, refl))
    | inr c ↦ elim (Bool-cases blend_of_all.ok) [
      | inl b ↦ rw (if_no _ _ c, if_yes _ _ b) (blended e (ap w.canceling e ∙ c) b refl)
      | inr b ↦ rw (if_no _ _ c, if_no _ _ b) (unblended e (ap w.canceling e ∙ c) b (b, refl))
    ]
  ]

  failed-EndsAt :
      (k : ℕ)
      → k < n
      → w.canceling k ≡ false
      → (checked (leg w start k)).ok ≡ false
      → EndsAt k (record (checked (leg w start k)) {
        message = leg_name k n ++ (checked (leg w start k)).message;
      })
  failed-EndsAt k h c bad = elim (Bool-cases (leg w start k).ok) [
    | inr bad' ↦ rw (checked_kept (leg w start k) (rw bad' refl)) (refused h c bad' (bad', refl))
    | inl is_ok ↦ elim (Bool-cases (is_empty (leg w start k).trajectory.points)) [
      | inl no_points ↦
          rw (checked_empty (leg w start k) is_ok no_points)
            (empty h c is_ok (is_empty_nil _ no_points) (refl, refl))
      | inr points ↦
          absurd (ground (arith, bad, checked_kept (leg w start k) (rw (is_ok, points) refl)))
    ]
  ]

  verdict-EndsAt :
      (left k : ℕ)
      → k + left ≡ n
      → PassedTo k
      → (m : ℕ) × PassedTo m × EndsAt m (verdict w n start k left)
  verdict-EndsAt zero k e before = (k, before, blend-EndsAt k (omega arith))
  verdict-EndsAt (suc left) k e before = elim (Bool-cases (w.canceling k)) [
    | inl c ↦ rw (if_yes _ _ c) (k, before, canceled c (refl, refl))
    | inr c ↦ elim (Bool-cases (checked (leg w start k)).ok) [
      | inl good ↦
          rw (if_no _ _ c, if_yes _ _ good)
            (verdict-EndsAt left (suc k) (omega arith)
              (PassedTo-suc k before c ((checked-ok_iff (leg w start k)).0 good)))
      | inr bad ↦ rw (if_no _ _ c, if_no _ _ bad) (k, before, failed-EndsAt k (omega arith) c bad)
    ]
  ]

  -- A chain over at least one target reports what ends it first, in the order of its targets: a
  -- cancel that it meets before a leg or before the blend, as "canceled during planning"; a leg that
  -- the planner refuses, or plans without a point, with "leg k/n: " in front of the reason; and when
  -- nothing does, the blend of all the legs, a failure of which has "blend: " in front of its reason.
  -- Every leg before was planned with points, and no cancel met.
  pub first_end_reported :
      (acts : List (Action W))
      → 0 < n
      → plan_legs w n start ≡ some acts
      → (o : Outcome W) × (reported acts ≡ some o) × ((k : ℕ) × PassedTo k × EndsAt k o)
  first_end_reported acts pos e = (
    verdict w n start 0 n,
    reported-verdict w n start acts pos e,
    verdict-EndsAt n 0 (omega arith) (λ j h. absurd (omega arith)),
  )
