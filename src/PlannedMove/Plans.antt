-- ===== src/PlannedMove/Plans.antt =====
-- planned_move_server.h: handle_goal, and the verdict of on_plan_done.
use kinova_gen3_ros.Common.{
  ◌≡◌, refl, sym, ap, ◌↔◌, ◌⊎◌, ◌≢◌, Bool, true, false, List, [], ◌∷◌, Option, none, some, ℕ_eq,
  arith, All, length,
}
use mathlib.Core.Path.{subst}
use kinova_gen3_ros.Common.Text.{String}
use kinova_gen3_ros.Driver.{num_joints, TrajectoryGoal, latched}
use kinova_gen3_ros.Messages.{JointTrajectoryPoint}
use kinova_gen3_ros.Externals.{Double, Packages}
use kinova_gen3_ros.Mapping.Gains.{mode_gains_rejection}
use kinova_gen3_ros.Mapping.Limits.{contact_rejection, contact_refused_iff}
use kinova_gen3_ros.Mapping.Names.{joint_names_accepted}
use kinova_gen3_ros.Planner.{Outcome}
use kinova_gen3_ros.PlannedMove.{
  MoveGoal, SinkView, executes, handle_goal, is_some, malformed_point, verdict, checked_points,
  execution_goal,
}

pub is_some_lem : (o : Option String) → (is_some o ≡ false) ↔ (o ≡ none)
unfolding is_some
is_some_lem o = ground arith

module _ {W : Type 0} where
  abbrev pub Sized : List (JointTrajectoryPoint W) → Type 0
  Sized = All (λ p. length p.positions ≡ num_joints)

  malformed_point-none :
      (ps : List (JointTrajectoryPoint W)) → (malformed_point ps ≡ none) ↔ Sized ps
  unfolding malformed_point
  malformed_point-none [] = ground arith
  malformed_point-none (p ∷ ps) = ground (arith, malformed_point-none ps)

  some_injective : {s s' : SinkView W} → some s ≡ some s' → s ≡ s'
  some_injective p = cc

  -- The refusals and the motion are told apart.
  executes_injective : (x y : TrajectoryGoal W) → (executes x ≡ executes y) ↔ (x ≡ y)
  executes_injective x y = (λ e. cc, λ e. ap executes e)

module _ {W : Type 0} ⦃d : Double W⦄ ⦃k : Packages W⦄ where
  -- What admission asks of the arm, the goal and the action's validation.
  abbrev pub Admissible : Option String → MoveGoal W → SinkView W → Type 0
  Admissible invalid g s =
      (d.le s.stamp_s (d.decimal 0 0) ≡ false)
      × (mode_gains_rejection g.control_mode g.gains ≡ none)
      × ((s.contact.enabled ≡ false) ⊎ (s.contact.status.phase ≢ latched))
      × (invalid ≡ none)

  admitted_by :
      (s : SinkView W) (invalid : Option String) (g : MoveGoal W)
      → (handle_goal (some s) invalid g ≡ true) ↔ Admissible invalid g s
  unfolding handle_goal
  admitted_by s invalid g = ground (
    arith,
    is_some_lem (mode_gains_rejection g.control_mode g.gains),
    is_some_lem (contact_rejection s.contact),
    is_some_lem invalid,
    contact_refused_iff s.contact,
  )

  -- A goal is admitted exactly when the command sink is set, the arm's state has been measured, the
  -- control mode and gains are acceptable, no contact stop is latched with detection on, and the
  -- action's own validation has no objection.
  pub goal_admitted_iff :
      (sink : Option (SinkView W)) (invalid : Option String) (g : MoveGoal W)
      → (handle_goal sink invalid g ≡ true)
        ↔ ((s : SinkView W) × (sink ≡ some s) × Admissible invalid g s)
  unfolding handle_goal
  goal_admitted_iff none invalid g = (λ e. cc, λ (s, p, a). cc)
  goal_admitted_iff (some s) invalid g = (
    λ e. (s, refl, (admitted_by s invalid g).0 e),
    λ (s', p, a).
        (admitted_by s invalid g).1 (subst (Admissible invalid g) (sym (some_injective p)) a),
  )

  module _ (arm_joint_names : List String) (check_plan : Outcome W → Option String) where
    -- A finished plan is offered to the supervisor exactly when planning succeeded, the goal is not
    -- being canceled, the action's own check of the plan passes, the plan is not empty, each of its
    -- points has one position for each joint, and it names the arm's joints in chain order; the
    -- motion offered is then the one made of the goal and the plan.
    pub plan_executed_iff :
        (canceling : Bool) (g : MoveGoal W) (o : Outcome W) (tg : TrajectoryGoal W)
        → (verdict arm_joint_names check_plan canceling g o ≡ executes tg) ↔ (
            (o.ok ≡ true)
            × (canceling ≡ false)
            × (check_plan o ≡ none)
            × (o.trajectory.points ≢ [])
            × Sized o.trajectory.points
            × (o.trajectory.joint_names ≡ arm_joint_names)
            × (execution_goal g o ≡ tg))
    unfolding verdict checked_points
    plan_executed_iff canceling g o tg = ground (
      arith,
      malformed_point-none o.trajectory.points,
      joint_names_accepted o.trajectory.joint_names arm_joint_names,
      executes_injective (execution_goal g o) tg,
    )
