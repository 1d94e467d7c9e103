-- ===== src/Legs/Order.antt =====
-- plan_legs.h: what the chain plans and blends, and in which order.
use mathlib.Core.Option
use mathlib.Core.Path.{subst}
use native.Mathlib.Decide.{dec_lt}
use kinova_gen3_ros.Common.{
  ℕ, zero, suc, ◌≤◌, ◌<◌, is_empty_iff, last?, ◌≡◌, ◌≢◌, ◌↔◌, refl, sym, ap, ap₂, ◌∙◌, true, false,
  List, [], ◌∷◌, Option, none, some, if_yes, if_no, ℕ_eq, arith, Bool-cases, inl, inr, ◌⊎◌,
}
use kinova_gen3_ros.Messages.{JointTrajectory, JointTrajectoryPoint}
use kinova_gen3_ros.Externals.{Double}
use kinova_gen3_ros.Planner.{Outcome}
use kinova_gen3_ros.Legs.{
  Action, asks_cancel, plans, blends, done, World, plan_leg, plan_legs, plan_leg_cases, finish,
  finish_blend, leg_failure, checked, end_of, snoc,
}

module _ {W : Type 0} where
  -- The positions of the last point, if there is one.
  abbrev pub last_positions : List (JointTrajectoryPoint W) → List W
  last_positions [] = []
  last_positions (p ∷ []) = p.positions
  last_positions (p ∷ q ∷ ps) = last_positions (q ∷ ps)

  end_of-points :
      (ps : List (JointTrajectoryPoint W))
      → elim (last? ps) as (λ _. List W) [ none ↦ [] | some p ↦ p.positions ] ≡ last_positions ps
  end_of-points [] = refl
  end_of-points (p ∷ []) = refl
  end_of-points (p ∷ q ∷ ps) = end_of-points (q ∷ ps)

  pub end_of_lem : (t : JointTrajectory W) → end_of t ≡ last_positions t.points
  end_of_lem t = end_of-points t.points

  -- A success with at least one point.
  abbrev pub IsPlan : Outcome W → Type 0
  IsPlan o = (o.ok ≡ true) × (o.trajectory.points ≢ [])

module _ {W : Type 0} ⦃d : Double W⦄ where
  -- Where leg `k` starts, and the first `k` legs, when each is planned from the end of the one
  -- before it.
  abbrev pub leg_start : World W → List W → ℕ → List W
  leg_start w start zero = start
  leg_start w start (suc k) = last_positions (w.answer k (leg_start w start k)).trajectory.points

  abbrev pub leg : World W → List W → ℕ → Outcome W
  leg w start k = w.answer k (leg_start w start k)

  abbrev pub legs_upto : World W → List W → ℕ → List (JointTrajectory W)
  legs_upto w start zero = []
  legs_upto w start (suc k) = snoc (legs_upto w start k) (leg w start k).trajectory

  -- A leg is planned when the planner succeeds with at least one point.
  abbrev pub IsPlanned : World W → List W → ℕ → Type 0
  IsPlanned w start k = IsPlan (leg w start k)

  abbrev pub AllPlanned : World W → List W → ℕ → Type 0
  AllPlanned w start n = (k : ℕ) → k < n → IsPlanned w start k

  pub checked-trajectory : (o : Outcome W) → (checked o).trajectory ≡ o.trajectory
  unfolding checked
  checked-trajectory o = ground arith

  -- A checked plan is a success exactly when it was one, with points.
  pub checked-ok_iff :
      (o : Outcome W) → ((checked o).ok ≡ true) ↔ ((o.ok ≡ true) × (o.trajectory.points ≢ []))
  unfolding checked
  checked-ok_iff o = ground (arith, is_empty_iff o.trajectory.points)

  module _ (w : World W) (n : ℕ) (start : List W) where
    -- What every action of the chain satisfies: a leg is planned only within the targets and from
    -- the end of the leg before it, once all legs before it are planned; only all legs, planned, are
    -- blended; a reported success is the blend's.
    abbrev pub Sound : Action W → Type 0
    Sound asks_cancel = Unit
    Sound (plans k s) = (k < n) × (s ≡ leg_start w start k) × AllPlanned w start k
    Sound (blends ls) = (ls ≡ legs_upto w start n) × AllPlanned w start n
    Sound (done o) = (o.ok ≡ false) ⊎ (AllPlanned w start n × (o ≡ w.blended (legs_upto w start n)))

    abbrev pub AllSound : List (Action W) → Type 0
    AllSound [] = Unit
    AllSound (a ∷ acts) = Sound a × AllSound acts

    abbrev pub SoundRun : Option (List (Action W)) → Type 0
    SoundRun none = Unit
    SoundRun (some acts) = AllSound acts

    begun-Sound :
        (k : ℕ) (s : List W) (r : Option (List (Action W)))
        → Sound (plans k s)
        → SoundRun r
        → SoundRun (Option.map (λ acts. asks_cancel ∷ plans k s ∷ acts) r)
    begun-Sound k s none p h = tt
    begun-Sound k s (some acts) p h = (tt, (p, h))

    finish_blend_sound :
        AllPlanned w start n → AllSound (finish_blend (w.blended (legs_upto w start n)))
    unfolding finish_blend
    finish_blend_sound all = elim (Bool-cases (w.blended (legs_upto w start n)).ok) [
      | inl e ↦ rw (if_yes _ _ e) (inr (all, refl), tt)
      | inr e ↦ rw (if_no _ _ e) (inl e, tt)
    ]

    finish_sound :
        (asked : ℕ) (ls : List (JointTrajectory W))
        → ls ≡ legs_upto w start n
        → AllPlanned w start n
        → AllSound (finish w asked ls)
    unfolding finish
    finish_sound asked ls e all = elim (Bool-cases (w.canceling asked)) [
      | inl c ↦ rw c (tt, (inl refl, tt))
      | inr c ↦ rw (c, e) (tt, ((refl, all), finish_blend_sound all))
    ]

    AllPlanned-suc :
        (k : ℕ) → AllPlanned w start k → IsPlanned w start k → AllPlanned w start (suc k)
    AllPlanned-suc k all this j h = elim (dec_lt j k) [
      | yes below ↦ all j below
      | no last ↦ let e : j ≡ k = omega arith in subst (IsPlanned w start) (sym e) this
    ]

    leg_failure-bad : (k : ℕ) (o : Outcome W) → o.ok ≡ false → (leg_failure k n o).ok ≡ false
    unfolding leg_failure
    leg_failure-bad k o bad = bad

    plan_leg_sound :
        (fuel asked k : ℕ) (s : List W) (ls : List (JointTrajectory W))
        → k < n
        → s ≡ leg_start w start k
        → ls ≡ legs_upto w start k
        → AllPlanned w start k
        → SoundRun (plan_leg fuel w n asked k s ls)
    unfolding plan_leg
    plan_leg_sound zero asked k s ls lt es el all = tt
    plan_leg_sound (suc fuel) asked k s ls lt es el all =
        plan_leg_cases SoundRun fuel w n asked k s ls (λ c. (tt, (inl refl, tt)))
          (λ c bad. (tt, (begin, (inl (leg_failure-bad k _ bad), tt))))
          (λ c good l.
            begun-Sound k s _ begin
              (plan_leg_sound fuel (suc asked) (suc k) _ _ l end grown (all' good)))
          (λ c good l. (
            tt,
            (
              begin,
              finish_sound (suc asked) _ (grown ∙ ap (legs_upto w start) (last l))
                  (subst (AllPlanned w start) (last l) (all' good)),
            ),
          ))
      where
        begin : Sound (plans k s)
        begin = (lt, es, all)

        same : (checked (w.answer k s)).trajectory ≡ (leg w start k).trajectory
        same = checked-trajectory (w.answer k s) ∙ ap (λ t. (w.answer k t).trajectory) es

        end : end_of (checked (w.answer k s)).trajectory ≡ leg_start w start (suc k)
        end = ap end_of same ∙ end_of_lem (leg w start k).trajectory

        grown : snoc ls (checked (w.answer k s)).trajectory ≡ legs_upto w start (suc k)
        grown = ap₂ snoc el same

        all' : (checked (w.answer k s)).ok ≡ true → AllPlanned w start (suc k)
        all' good = AllPlanned-suc k all (
            (checked-ok_iff (leg w start k)).0
              (subst (λ t. (checked (w.answer k t)).ok ≡ true) es good))

        last : n ≤ suc k → suc k ≡ n
        last l = omega arith

    -- Whatever the planner answers and whenever the goal is canceled, in a chain over at least one
    -- target: leg `k` is planned only for a target, only from the last point of the leg before it
    -- (the first from the given start), and only when all legs before it were planned with points;
    -- a blend is asked only of all the legs, in order, and all planned; and an outcome reported as
    -- a success is the blend of all the legs.
    pub plan_legs_sound :
        0 < n → (acts : List (Action W)) → plan_legs w n start ≡ some acts → AllSound acts
    unfolding plan_legs
    plan_legs_sound pos acts e =
        subst SoundRun e
          (plan_leg_sound (suc n) 0 0 start [] pos refl refl (λ k h. absurd (omega arith)))
