-- ===== src/Legs/Chain.antt =====
-- plan_legs.h: the end of the chain.
use mathlib.Core.Option
use kinova_gen3_ros.Common.{
  ℕ, zero, suc, ◌+◌, ◌≤◌, ◌<◌, ◌≡◌, refl, List, [], ◌∷◌, Option, some, ℕ_eq, arith, Bool-cases, inl,
  inr,
}
use kinova_gen3_ros.Messages.{JointTrajectory}
use kinova_gen3_ros.Externals.{Double}
use kinova_gen3_ros.Planner.{Outcome}
use kinova_gen3_ros.Legs.{
  Action, asks_cancel, plans, blends, done, World, plan_leg, plan_legs, plan_leg_cases, finish,
  finish_blend,
}

module _ {W : Type 0} where
  -- One outcome is reported, and nothing is done after it.
  abbrev pub EndsOnce : List (Action W) → Type 0
  EndsOnce [] = ⊥
  EndsOnce (asks_cancel ∷ acts) = EndsOnce acts
  EndsOnce (plans k s ∷ acts) = EndsOnce acts
  EndsOnce (blends ls ∷ acts) = EndsOnce acts
  EndsOnce (done o ∷ acts) = acts ≡ []

  abbrev pub Total : Option (List (Action W)) → Type 0
  Total r = (acts : List (Action W)) × (r ≡ some acts) × EndsOnce acts

module _ {W : Type 0} ⦃d : Double W⦄ where
  finish_blend-EndsOnce : (b : Outcome W) → EndsOnce (finish_blend b)
  unfolding finish_blend
  finish_blend-EndsOnce b = elim (Bool-cases b.ok) [ inl e ↦ rw e refl | inr e ↦ rw e refl ]

  finish-EndsOnce :
      (w : World W) (asked : ℕ) (legs : List (JointTrajectory W)) → EndsOnce (finish w asked legs)
  unfolding finish
  finish-EndsOnce w asked legs = elim (Bool-cases (w.canceling asked)) [
    | inl e ↦ rw e refl
    | inr e ↦ rw e (finish_blend-EndsOnce (w.blended legs))
  ]

  begun-Total :
      (k : ℕ) (s : List W) (r : Option (List (Action W)))
      → Total r
      → Total (Option.map (λ acts. asks_cancel ∷ plans k s ∷ acts) r)
  begun-Total k s r (acts, e, t) = rw e (_, refl, t)

  plan_leg-Total :
      (fuel : ℕ) (w : World W) (n asked k : ℕ) (start : List W) (legs : List (JointTrajectory W))
      → 0 < fuel
      → n ≤ k + fuel
      → Total (plan_leg fuel w n asked k start legs)
  plan_leg-Total zero w n asked k start legs pos bound = absurd (omega arith)
  plan_leg-Total (suc fuel) w n asked k start legs pos bound =
      plan_leg_cases Total fuel w n asked k start legs (λ c. (_, refl, refl))
        (λ c bad. (_, refl, refl))
        (λ c good l.
          begun-Total k start _
            (plan_leg-Total fuel w n (suc asked) (suc k) _ _ (omega arith) (omega arith)))
        (λ c good l. (_, refl, finish-EndsOnce w (suc asked) _))

  -- With `n` targets the chain always comes to an end, whatever the planner answers and whenever
  -- the goal is canceled, and on_done is called exactly once, as the last thing it does.
  pub done_once : (w : World W) (n : ℕ) (start : List W) → Total (plan_legs w n start)
  unfolding plan_legs
  done_once w n start = plan_leg-Total (suc n) w n 0 0 start [] (omega arith) (omega arith)
