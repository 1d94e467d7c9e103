-- ===== src/Backend.antt =====
-- ros2_backend.h and ros2_backend.cpp: the ExecuteJointTrajectory action, /set_gains, the decimated
-- state topics and the diagnostics. The command sink is a parameter, asked through `CommandSink`; a
-- null pointer is `none`. Each handler holds the mutex over its whole use of `handles_`. A cancel
-- is one step with ROS's move of the handle to canceling, and the catch of an exception that ROS
-- raises at settle's transition is left out.
pub mod Goals
pub mod State
use kinova_gen3_ros.Common.{
  ℕ, Bool, true, false, not, List, [], ◌∷◌, ◌++◌, Option, none, some, length, is_empty, ◌==◌, ℕ_eq,
  if◌then◌else◌, update,
}
use kinova_gen3_ros.Common.Text.{String}
use kinova_gen3_ros.Driver.{
  num_joints, Token, zero_token, GoalId, ContactState, TrajectoryGoal, TrajectoryFeedback,
  TrajectoryResult, ResultCode, successful, ImpedanceGains,
}
use kinova_gen3_ros.Messages.{
  JointTrajectoryPoint, ExecuteGoal, ExecuteFeedback, MoveResult, ImpedanceGainsMsg,
}
use kinova_gen3_ros.Externals.{Double, Packages}
use kinova_gen3_ros.Mapping.Trajectory.{to_feedback_msg, to_result_msg}
use kinova_gen3_ros.Mapping.Gains.{to_trajectory_goal, to_impedance_gains, mode_gains_rejection}
use kinova_gen3_ros.Mapping.Limits.{speed_scale_rejection, contact_rejection}
use kinova_gen3_ros.Mapping.Names.{goal_joint_names_rejection}
use kinova_gen3_ros.PlannedMove.{is_some}
use kinova_gen3_ros.PlannedMove.Server.{Transition, canceled, succeeded, aborted}

pub record GainsResult : Type 0 where
  pub accepted : Bool
  pub message : String

-- kinova_lowlevel's CommandSink, at the moment of a call.
pub record CommandSink (W : Type 0) : Type 0 where
  pub query_contact : ContactState W
  pub trajectory_goal : TrajectoryGoal W → Bool
  pub trajectory_cancel : GoalId → Token → Bool
  pub set_gains : ImpedanceGains W → Token → GainsResult

module _ {W : Type 0} where
  -- Whether every point has one position for each joint.
  unfoldable pub all_wide : List (JointTrajectoryPoint W) → Bool
  all_wide [] = true
  all_wide (p ∷ ps) =
      let rest = all_wide ps in if not (length p.positions == num_joints) then false else rest

module _ {W : Type 0} ⦃d : Double W⦄ ⦃k : Packages W⦄ where
  -- Ros2Backend::handle_goal
  unfoldable pub handle_goal : List String → Option (CommandSink W) → ExecuteGoal W → Bool
  unfolding is_some
  handle_goal arm_joint_names none goal = false
  handle_goal arm_joint_names (some sink) goal =
      if is_empty goal.trajectory.points
      then false
      else if not (all_wide goal.trajectory.points)
      then false
      else if is_some (goal_joint_names_rejection goal arm_joint_names)
      then false
      else if is_some (speed_scale_rejection goal.speed_scale)
      then false
      else if is_some (mode_gains_rejection goal.control_mode goal.gains)
      then false
      else if is_some (contact_rejection sink.query_contact)
      then false
      else sink.trajectory_goal (to_trajectory_goal goal)

  -- The body of on_set_gains after its local checks.
  answer_gains : CommandSink W → ImpedanceGainsMsg W → Token → Option String → GainsResult
  answer_gains sink spec token (some why) = record { accepted = false; message = why }
  answer_gains sink spec token none = sink.set_gains (to_impedance_gains spec) token

  unfoldable pub on_set_gains : Option (CommandSink W) → ImpedanceGainsMsg W → Token → GainsResult
  unfolding answer_gains
  on_set_gains none spec token = record { accepted = false; message = "no command sink wired" }
  on_set_gains (some sink) spec token = answer_gains sink spec token (mode_gains_rejection 1 spec)

-- An entry of `handles_`; the goal message stands for its handle.
pub record Entry (W : Type 0) : Type 0 where
  pub goal : ExecuteGoal W
  pub canceling : Bool
  pub token : Token

-- What the backend calls: the supervisor, and the goal handles.
pub data Call (W : Type 0) : Type 0 where
  trajectory_accepted : GoalId → TrajectoryGoal W → Call W
  trajectory_cancel : GoalId → Token → Call W
  feedback : GoalId → ExecuteFeedback W → Call W
  terminal : GoalId → Transition → MoveResult W → Call W

pub record Backend (W : Type 0) : Type 0 where
  pub handles : GoalId → Option (Entry W)
  pub log : List (Call W)

module _ {W : Type 0} where
  abbrev pub logs : Call W → Backend W → Backend W
  logs c b = record b { log = c ∷ b.log }

  abbrev pub token_of : Option (Entry W) → Token
  token_of none = zero_token
  token_of (some e) = e.token

  abbrev pub mark_canceling : Bool → Option (Entry W) → Option (Entry W)
  mark_canceling accepted none = none
  mark_canceling true (some e) = some (record e { canceling = true })
  mark_canceling false (some e) = some e

  -- Ros2Backend::handle_cancel, and ROS's move of the handle to canceling when it is accepted.
  unfoldable pub handle_cancel : Option (CommandSink W) → GoalId → Backend W → Backend W × Bool
  handle_cancel none id b = (b, false)
  handle_cancel (some sink) id b =
      let token = token_of (b.handles id) in
      let accepted = sink.trajectory_cancel id token in
      (
        record {
          handles = update b.handles id (mark_canceling accepted (b.handles id));
          log = trajectory_cancel id token ∷ b.log;
        },
        accepted,
      )

abbrev pub transition : Bool → ResultCode → Transition
transition true code = canceled
transition false successful = succeeded
transition false _ = aborted

module _ {W : Type 0} ⦃d : Double W⦄ ⦃k : Packages W⦄ where
  -- Ros2Backend::handle_accepted
  unfoldable pub handle_accepted : GoalId → ExecuteGoal W → Backend W → Backend W
  handle_accepted id goal b =
      let tg = to_trajectory_goal goal in
      record {
        handles =
            update b.handles id
              (some (record { goal = goal; canceling = false; token = tg.token }));
        log = trajectory_accepted id tg ∷ b.log;
      }

  abbrev pub feed_handle : GoalId → TrajectoryFeedback W → Option (Entry W) → Backend W → Backend W
  feed_handle id fb none b = b
  feed_handle id fb (some e) b = logs (feedback id (to_feedback_msg fb)) b

  -- Ros2Backend::publish_feedback
  unfoldable pub publish_feedback : GoalId → TrajectoryFeedback W → Backend W → Backend W
  publish_feedback id fb b = feed_handle id fb (b.handles id) b

  -- The part of settle that found the handle, which takes the transition.
  abbrev pub settle_handle : GoalId → TrajectoryResult W → Option (Entry W) → Backend W → Backend W
  settle_handle id r none b = b
  settle_handle id r (some e) b = record {
    handles = update b.handles id none;
    log = terminal id (transition e.canceling r.error_code) (to_result_msg r) ∷ b.log;
  }

  -- Ros2Backend::settle
  unfoldable pub settle : GoalId → TrajectoryResult W → Backend W → Backend W
  settle id r b = settle_handle id r (b.handles id) b
