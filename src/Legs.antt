-- ===== src/Legs.antt =====
-- plan_legs.h: several targets in one motion. Each leg is planned from the last point of the leg
-- before it, and the legs are blended. The planner and the cancel flag are functions: what the
-- planner answers to leg `k` from a start, what the blend of the legs gives, and whether the goal
-- is being canceled when the chain asks for the n-th time. The result is the list of what the
-- chain does, in order.
pub mod Chain
pub mod Order
pub mod Verdict
pub mod Feedback
use mathlib.Core.Option
use kinova_gen3_ros.Common.{
  ℕ, zero, suc, ◌+◌, ◌≤◌, ◌<◌, ◌≡◌, ap, if_yes, if_no, inl, inr, Bool-cases, arith, Bool, true,
  false, not, ◌&&◌, List, [], ◌∷◌, Option, none, some, ltb, last?, is_empty, ◌==◌, ℕ_eq,
  if◌then◌else◌,
}
use kinova_gen3_ros.Common.Text.{String, ◌++◌, to_string}
use kinova_gen3_ros.Messages.{JointTrajectory, JointTrajectoryPoint}
use kinova_gen3_ros.Externals.{Double}
use kinova_gen3_ros.Planner.{Outcome, failure}

module _ {W : Type 0} ⦃d : Double W⦄ where
  -- Why a blend radius is refused.
  unfoldable pub blend_radius_rejection : W → Option String
  blend_radius_rejection r =
      if d.is_finite r && d.le (d.decimal 0 0) r
      then none
      else some ("blend_radius must be finite and >= 0; got " ++ d.show_g r)

-- What the chain does: asks whether the goal is canceled, requests a plan of a leg from a start,
-- requests the blend of the legs, reports the outcome.
pub data Action (W : Type 0) : Type 0 where
  asks_cancel : Action W
  plans : ℕ → List W → Action W
  blends : List (JointTrajectory W) → Action W
  done : Outcome W → Action W

-- What the chain meets.
pub record World (W : Type 0) : Type 0 where
  pub answer : ℕ → List W → Outcome W
  pub blended : List (JointTrajectory W) → Outcome W
  pub canceling : ℕ → Bool

-- push_back
abbrev pub snoc {ℓ} : {A : Type ℓ} → List A → A → List A
snoc [] a = a ∷ []
snoc (x ∷ xs) a = x ∷ snoc xs a

module _ {W : Type 0} where
  -- `legs.back().points.back().positions`; the empty list is never read (an empty leg ends the
  -- chain first).
  abbrev pub end_of : JointTrajectory W → List W
  end_of t = elim (last? t.points) [ none ↦ [] | some p ↦ p.positions ]

abbrev pub leg_name : ℕ → ℕ → String
leg_name k n = "leg " ++ (to_string (suc k) ++ ("/" ++ (to_string n ++ ": ")))

module _ {W : Type 0} ⦃d : Double W⦄ where
  abbrev pub canceled_outcome : Outcome W
  canceled_outcome = failure "canceled during planning"

  -- A plan without points is a failure of its leg.
  unfoldable pub checked : Outcome W → Outcome W
  checked o =
      if o.ok && is_empty o.trajectory.points
      then record o { ok = false; message = "planner returned an empty trajectory" }
      else o

  unfoldable pub finish_blend : Outcome W → List (Action W)
  finish_blend b =
      if b.ok then done b ∷ [] else done (record b { message = "blend: " ++ b.message }) ∷ []

  -- After the last leg.
  unfoldable pub finish : World W → ℕ → List (JointTrajectory W) → List (Action W)
  unfolding finish_blend
  finish w asked legs =
      if w.canceling asked
      then asks_cancel ∷ done canceled_outcome ∷ []
      else asks_cancel ∷ blends legs ∷ finish_blend (w.blended legs)

  unfoldable pub leg_failure : ℕ → ℕ → Outcome W → Outcome W
  leg_failure k n o = record o { message = leg_name k n ++ o.message }

  -- `asked` counts the questions put to canceling(). Fuel `n` is enough: see Chain.
  unfoldable pub plan_leg :
      ℕ → World W → ℕ → ℕ → ℕ → List W → List (JointTrajectory W) → Option (List (Action W))
  plan_leg zero w n asked k start legs = none
  plan_leg (suc fuel) w n asked k start legs =
      let o = checked (w.answer k start) in
      let legs' = snoc legs o.trajectory in
      let rest = plan_leg fuel w n (suc asked) (suc k) (end_of o.trajectory) legs' in
      let failed = done (leg_failure k n o) ∷ [] in
      let last = finish w (suc asked) legs' in
      if w.canceling asked
      then some (asks_cancel ∷ done canceled_outcome ∷ [])
      else if not o.ok
      then some (asks_cancel ∷ plans k start ∷ failed)
      else if ltb (suc k) n
      then Option.map (λ acts. asks_cancel ∷ plans k start ∷ acts) rest
      else some (asks_cancel ∷ plans k start ∷ last)

  unfoldable pub plan_legs : World W → ℕ → List W → Option (List (Action W))
  unfolding plan_leg
  plan_legs w n start = plan_leg (suc n) w n 0 0 start []

  -- The five ways in which a leg goes on.
  plan_leg_cases {ℓ} :
      (P : Option (List (Action W)) → Type ℓ) (fuel : ℕ) (w : World W) (n asked k : ℕ)
      (start : List W) (legs : List (JointTrajectory W))
      → let o = checked (w.answer k start) in
        let legs' = snoc legs o.trajectory in
        let begun : List (Action W) → List (Action W) =
          λ acts. asks_cancel ∷ plans k start ∷ acts in
        (w.canceling asked ≡ true → P (some (asks_cancel ∷ done canceled_outcome ∷ [])))
        → (w.canceling asked ≡ false
            → o.ok ≡ false
            → P (some (begun (done (leg_failure k n o) ∷ []))))
        → (w.canceling asked ≡ false
            → o.ok ≡ true
            → suc k < n
            → P (
                Option.map begun
                  (plan_leg fuel w n (suc asked) (suc k) (end_of o.trajectory) legs')))
        → (w.canceling asked ≡ false
            → o.ok ≡ true
            → n ≤ suc k
            → P (some (begun (finish w (suc asked) legs'))))
        → P (plan_leg (suc fuel) w n asked k start legs)
  unfolding plan_leg
  plan_leg_cases P fuel w n asked k start legs stopped failed more last =
      elim (Bool-cases (w.canceling asked)) [
        | inl c ↦ rw (if_yes _ _ c) (stopped c)
        | inr c ↦ elim (Bool-cases (checked (w.answer k start)).ok) [
          | inr bad ↦ rw (if_no _ _ c, if_yes _ _ (ap not bad)) (failed c bad)
          | inl good ↦ elim (Bool-cases (ltb (suc k) n)) [
            | inl l ↦
                rw (if_no _ _ c, if_no _ _ (ap not good), if_yes _ _ l) (more c good (ground arith))
            | inr l ↦
                rw (if_no _ _ c, if_no _ _ (ap not good), if_no _ _ l) (last c good (ground arith))
          ]
        ]
      ]
