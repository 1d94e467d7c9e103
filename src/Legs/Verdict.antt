-- ===== src/Legs/Verdict.antt =====
-- plan_legs.h: the outcome of a chain.
pub mod Ends
use mathlib.Core.Option
use mathlib.Core.Path.{subst}
use kinova_gen3_ros.Common.{
  ℕ, zero, suc, ◌+◌, ◌-◌, ◌≤◌, ◌<◌, ◌≡◌, refl, sym, ap, ◌∙◌, false, List, [], ◌∷◌, Option, none,
  some, if_yes, if_no, if◌then◌else◌, arith,
}
use kinova_gen3_ros.Common.Text.{◌++◌}
use kinova_gen3_ros.Externals.{Double}
use kinova_gen3_ros.Planner.{Outcome}
use kinova_gen3_ros.Legs.{
  Action, asks_cancel, plans, blends, done, World, plan_leg, plan_legs, plan_leg_cases, finish,
  finish_blend, leg_failure, checked, end_of, snoc, leg_name, canceled_outcome,
}
use kinova_gen3_ros.Legs.Order.{leg_start, leg, legs_upto, checked-trajectory, end_of_lem}

module _ {W : Type 0} where
  -- The outcome that the actions report.
  abbrev pub reported : List (Action W) → Option (Outcome W)
  reported [] = none
  reported (asks_cancel ∷ acts) = reported acts
  reported (plans k s ∷ acts) = reported acts
  reported (blends ls ∷ acts) = reported acts
  reported (done o ∷ acts) = some o

  abbrev outcome_of : Option (List (Action W)) → Option (Outcome W)
  outcome_of none = none
  outcome_of (some acts) = reported acts

  outcome-begun :
      (k : ℕ) (s : List W) (r : Option (List (Action W)))
      → outcome_of (Option.map (λ acts. asks_cancel ∷ plans k s ∷ acts) r) ≡ outcome_of r
  outcome-begun k s none = refl
  outcome-begun k s (some acts) = refl

module _ {W : Type 0} ⦃d : Double W⦄ (w : World W) (n : ℕ) (start : List W) where
  -- As the code does it. After the legs: a cancel, or the blend, with "blend: " in front of its failure.
  abbrev pub blend_verdict : Outcome W
  blend_verdict =
      let b = w.blended (legs_upto w start n) in
      if w.canceling n
      then canceled_outcome
      else if b.ok
      then b
      else record b { message = "blend: " ++ b.message }

  -- The first of the `left` steps from `k` on that meets a cancel, or whose leg fails, then with the
  -- leg's name in front of the reason, or else what comes after the legs.
  abbrev pub verdict : ℕ → ℕ → Outcome W
  verdict k zero = blend_verdict
  verdict k (suc left) =
      let o = checked (leg w start k) in
      let later = verdict (suc k) left in
      if w.canceling k
      then canceled_outcome
      else if o.ok
      then later
      else record o { message = leg_name k n ++ o.message }

  finish-verdict : reported (finish w n (legs_upto w start n)) ≡ some blend_verdict
  unfolding finish finish_blend
  finish-verdict = ground arith

  -- One leg, given what the legs after it report.
  leg-verdict :
      (left k : ℕ)
      → suc k + left ≡ n
      → (suc k < n
          → outcome_of (
              plan_leg
                (suc left)
                w
                n
                (suc k)
                (suc k)
                (leg_start w start (suc k))
                (legs_upto w start (suc k)))
            ≡ some (verdict (suc k) left))
      → (n ≤ suc k → verdict (suc k) left ≡ blend_verdict)
      → outcome_of (plan_leg (suc (suc left)) w n k k (leg_start w start k) (legs_upto w start k))
        ≡ some (verdict k (suc left))
  leg-verdict left k size more last =
      plan_leg_cases (λ r. outcome_of r ≡ some (verdict k (suc left))) (suc left) w n k k
        (leg_start w start k) (legs_upto w start k) (λ c. rw (if_yes _ _ c) refl)
        (λ c bad. ap some (failure c bad))
        (λ c good l.
          rw (if_no _ _ c, if_yes _ _ good, outcome-begun k (leg_start w start k) _, end, same)
            (more l))
        (λ c good l.
          let e : suc k ≡ n = omega arith in
          rw (if_no _ _ c, if_yes _ _ good, last l)
            (ap (λ ls. reported (finish w (suc k) ls)) (whole e)
              ∙ ap (λ m. reported (finish w m (legs_upto w start n))) e
              ∙ finish-verdict))
    where
      failure :
          w.canceling k ≡ false
          → (checked (leg w start k)).ok ≡ false
          → leg_failure k n (checked (leg w start k)) ≡ verdict k (suc left)
      failure c bad = rw (if_no _ _ c, if_no _ _ bad) (unfold leg_failure in refl)

      same : (checked (leg w start k)).trajectory ≡ (leg w start k).trajectory
      same = checked-trajectory (leg w start k)

      end : end_of (checked (leg w start k)).trajectory ≡ leg_start w start (suc k)
      end = ap end_of same ∙ end_of_lem (leg w start k).trajectory

      whole :
          suc k ≡ n
          → snoc (legs_upto w start k) (checked (leg w start k)).trajectory ≡ legs_upto w start n
      whole e = ap (snoc (legs_upto w start k)) same ∙ ap (legs_upto w start) e

  legs-verdict :
      (left k : ℕ)
      → suc k + left ≡ n
      → outcome_of (plan_leg (suc (suc left)) w n k k (leg_start w start k) (legs_upto w start k))
        ≡ some (verdict k (suc left))
  legs-verdict zero k size = leg-verdict zero k size (λ l. absurd (omega arith)) (λ l. refl)
  legs-verdict (suc left) k size =
      leg-verdict (suc left) k size (λ l. legs-verdict left (suc k) (omega arith))
        (λ l. absurd (omega arith))

  pub reported-verdict :
      (acts : List (Action W))
      → 0 < n
      → plan_legs w n start ≡ some acts
      → reported acts ≡ some (verdict 0 n)
  unfolding plan_legs
  reported-verdict acts pos e =
      let size : suc (n - 1) ≡ n = omega arith in
      sym (ap outcome_of e)
      ∙ subst (λ t. outcome_of (plan_leg (suc t) w n 0 0 start []) ≡ some (verdict 0 t)) size
          (legs-verdict (n - 1) 0 (omega arith))
