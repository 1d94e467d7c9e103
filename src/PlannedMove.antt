-- ===== src/PlannedMove.antt =====
-- planned_move_server.h: the plan, execute, settle lifecycle that every GoTo action shares. This
-- file is its pure half, the admission of a goal and the verdict on a finished plan; `Server` is
-- the concurrent half.
pub mod Plans
pub mod Server
pub mod Terminals
pub mod Cancels
use kinova_gen3_ros.Common.{
  ℕ, Bool, true, false, not, ◌&&◌, List, [], ◌∷◌, Option, none, some, length, is_empty, replicate,
  ◌==◌, ℕ_eq, if◌then◌else◌,
}
use kinova_gen3_ros.Common.Text.{String, ◌++◌, to_string}
use kinova_gen3_ros.Driver.{
  num_joints, Token, ControlModeKind, impedance, ContactState, TrajectoryGoal, ResultCode,
  preempted, planning_failed,
}
use kinova_gen3_ros.Messages.{ImpedanceGainsMsg, JointTrajectoryPoint}
use kinova_gen3_ros.Externals.{Double, Packages}
use kinova_gen3_ros.Mapping.Trajectory.{to_planned_goal}
use kinova_gen3_ros.Mapping.Gains.{mode_gains_rejection, to_control_mode, to_impedance_gains}
use kinova_gen3_ros.Mapping.Limits.{contact_rejection}
use kinova_gen3_ros.Mapping.Names.{joint_names_rejection}
use kinova_gen3_ros.Planner.{Outcome}

-- The fields of a GoTo goal that the shared lifecycle reads; `speed_scale` is `none` for the
-- actions whose goal has no such field.
pub record MoveGoal (W : Type 0) : Type 0 where
  pub control_mode : ℕ
  pub gains : ImpedanceGainsMsg W
  pub sender_id : String
  pub token : Token
  pub speed_scale : Option W

-- What handle_goal asks of the command sink; the sink pointer may be null.
pub record SinkView (W : Type 0) : Type 0 where
  pub stamp_s : W
  pub contact : ContactState W

-- The verdict on a finished plan: settle the goal here, or offer this motion to the supervisor.
pub data Verdict (W : Type 0) : Type 0 where
  refuses : ResultCode → String → Verdict W
  executes : TrajectoryGoal W → Verdict W

unfoldable pub is_some : Option String → Bool
is_some none = false
is_some (some _) = true

abbrev pub is_impedance : ControlModeKind → Bool
is_impedance impedance = true
is_impedance _ = false

module _ {W : Type 0} where
  -- The first point whose width is not the arm's.
  unfoldable pub malformed_point : List (JointTrajectoryPoint W) → Option String
  malformed_point [] = none
  malformed_point (p ∷ ps) =
      if not (length p.positions == num_joints)
      then some (
          "planner returned malformed trajectory: point has "
          ++ (to_string (length p.positions) ++ (" positions, expected " ++ to_string num_joints)))
      else malformed_point ps

module _ {W : Type 0} ⦃d : Double W⦄ where
  -- kGotoPathTolRad and kGotoPathTolImpedanceRad
  abbrev pub goto_path_tol_rad : W
  goto_path_tol_rad = d.decimal 35 2

  abbrev pub goto_path_tol_impedance_rad : W
  goto_path_tol_impedance_rad = d.decimal 60 2

  unfoldable pub execution_speed_scale : MoveGoal W → W
  execution_speed_scale g = elim g.speed_scale [ none ↦ d.decimal 1 0 | some s ↦ s ]

module _ {W : Type 0} ⦃d : Double W⦄ ⦃k : Packages W⦄ where
  -- handle_goal, with the reason that the action's own validate() gives.
  unfoldable pub handle_goal : Option (SinkView W) → Option String → MoveGoal W → Bool
  unfolding is_some
  handle_goal none invalid g = false
  handle_goal (some s) invalid g =
      if d.le s.stamp_s (d.decimal 0 0)
      then false
      else if is_some (mode_gains_rejection g.control_mode g.gains)
      then false
      else if is_some (contact_rejection s.contact)
      then false
      else if is_some invalid
      then false
      else true

  -- The motion made of a plan.
  unfoldable pub execution_goal : MoveGoal W → Outcome W → TrajectoryGoal W
  unfolding execution_speed_scale
  execution_goal g o =
      let tg =
        to_planned_goal o.trajectory (execution_speed_scale g) (to_control_mode g.control_mode)
          (to_impedance_gains g.gains) in
      record tg {
        path_tolerance = replicate num_joints (
            if is_impedance tg.control_mode
            then goto_path_tol_impedance_rad
            else goto_path_tol_rad);
        sender_id = g.sender_id;
        token = g.token;
      }

  module _ (arm_joint_names : List String) (check_plan : Outcome W → Option String) where
    -- The end of on_plan_done's checks: widths, then joint names.
    checked_points : MoveGoal W → Outcome W → Option String → Verdict W
    checked_points g o (some why) = refuses planning_failed why
    checked_points g o none =
        elim (joint_names_rejection o.trajectory.joint_names arm_joint_names) [
          | some why ↦
              refuses planning_failed
                ("planner returned malformed trajectory: joint_names: " ++ why)
          | none ↦ executes (execution_goal g o)
        ]

    -- on_plan_done between its lookup and its call of the sink.
    unfoldable pub verdict : Bool → MoveGoal W → Outcome W → Verdict W
    unfolding checked_points
    verdict canceling g o =
        if not o.ok
        then if canceling
          then refuses preempted "canceled during planning"
          else refuses planning_failed o.message
        else if canceling
        then refuses preempted "canceled during planning"
        else elim (check_plan o) [
          | some why ↦ refuses planning_failed why
          | none ↦
              if is_empty o.trajectory.points
              then refuses planning_failed "planner returned an empty trajectory"
              else checked_points g o (malformed_point o.trajectory.points)
        ]
