-- ===== src/Tests/Motions.antt =====
-- Witnesses: the GoTo lifecycle after concrete interleavings.
use kinova_gen3_ros.Common.{
  ℕ, Bool, ◌≡◌, ◌≢◌, ◌↔◌, refl, true, false, ◌||◌, List, [], ◌∷◌, Option, none, some,
}
use kinova_gen3_ros.Common.Text.{String}
use kinova_gen3_ros.Driver.{GoalId, TrajectoryResult, successful}
use kinova_gen3_ros.Mapping.Names.{joint_names_rejection}
use kinova_gen3_ros.Planner.{Outcome}
use kinova_gen3_ros.PlannedMove.{
  MoveGoal, SinkView, executes, handle_goal, verdict, malformed_point, execution_goal,
}
use kinova_gen3_ros.PlannedMove.Plans.{Sized, Admissible, goal_admitted_iff, plan_executed_iff}
use kinova_gen3_ros.PlannedMove.Server as Server
use kinova_gen3_ros.PlannedMove.Server.{
  Goal, Transition, canceled, succeeded, Thread, unborn, planning, finished, Answers, Event,
  accepts, plan_done, advances, cancel_locks, cancel_calls, cancel_returns, settle_locks,
  settle_ends,
}
use kinova_gen3_ros.PlannedMove.Terminals.{terminals}
use kinova_gen3_ros.PlannedMove.Terminals.Legality.{has_ended, terminal_never_dropped}
use kinova_gen3_ros.PlannedMove.Cancels.{stop_sent, stop_pending}
use kinova_gen3_ros.PlannedMove.Cancels.Latched.{cancel_not_lost}
use kinova_gen3_ros.Tests.{
  thousandths, gen3, trajectory, arm_names, no_gains, clear_of_contact, at_rest,
}

abbrev pub go : MoveGoal ℕ
go = record {
  control_mode = 0;
  gains = no_gains;
  sender_id = "client";
  token = 77;
  speed_scale = some 500;
}

abbrev pub plan_found : Outcome ℕ
plan_found = record { ok = true; message = ""; trajectory = trajectory; goal_mismatch_rad = 0 }

abbrev pub unchecked : Outcome ℕ → Option String
unchecked o = none

abbrev pub willing : Answers ℕ
willing = record { accepts = true; contact = clear_of_contact }

abbrev pub success : TrajectoryResult ℕ
success = record { error_code = successful; error_string = ""; final_error = at_rest }

abbrev arm_view : SinkView ℕ
arm_view = record { stamp_s = 5; contact = clear_of_contact }

goal_admitted_iff_example :
    (handle_goal (some arm_view) none go ≡ true)
    ↔ ((s : SinkView ℕ) × (some arm_view ≡ some s) × Admissible none go s)
goal_admitted_iff_example = goal_admitted_iff (some arm_view) none go

plan_executed_iff_example :
    (verdict arm_names unchecked false go plan_found ≡ executes (execution_goal go plan_found)) ↔ (
      (true ≡ true)
      × (false ≡ false)
      × (unchecked plan_found ≡ none)
      × (trajectory.points ≢ [])
      × Sized trajectory.points
      × (trajectory.joint_names ≡ arm_names)
      × (execution_goal go plan_found ≡ execution_goal go plan_found))
plan_executed_iff_example =
    plan_executed_iff arm_names unchecked false go plan_found (execution_goal go plan_found)

-- A goal is accepted and canceled while it is planned; its plan then goes through the handover,
-- the cancel having reached only the planner. Newest step first.
abbrev accepted_then_canceled : List (GoalId × Event ℕ)
accepted_then_canceled = (1, cancel_calls) ∷ (1, cancel_locks) ∷ (1, accepts go) ∷ []

abbrev handed_over : List (GoalId × Event ℕ)
handed_over =
    (1, advances willing)
    ∷ (1, advances willing)
    ∷ (1, advances willing)
    ∷ (1, advances willing)
    ∷ (1, advances willing)
    ∷ (1, advances willing)
    ∷ (1, advances willing)
    ∷ (1, plan_done plan_found)
    ∷ accepted_then_canceled

-- What rclcpp_action allows, by whether the handle has ended and is canceling.
abbrev ros_allows : Bool → Bool → Transition → Bool
ros_allows false canceling canceled = canceling
ros_allows false canceling _ = true
ros_allows true canceling _ = false

-- The supervisor has settled the goal, whose cancel reaches the handle between is_canceling() and the
-- transition.
abbrev settled : List (GoalId × Event ℕ)
settled = (1, settle_locks success) ∷ handed_over

terminal_never_dropped_example :
    ros_allows (has_ended (Server.after arm_names unchecked settled 1)) true succeeded ≡ true
unfolding Server.after Server.move Server.on_accepted Server.lock_cancel Server.call_cancel
    Server.on_plan_done Server.advance verdict malformed_point joint_names_rejection
    Server.lock_settle Server.return_cancel Server.end_settle terminals
terminal_never_dropped_example =
    terminal_never_dropped arm_names unchecked ros_allows
      (record { may_succeed = λ canceling. refl; may_abort = λ canceling. refl; may_cancel = refl })
      settled 1 settle_ends succeeded successful "" true refl (λ e. refl)

abbrev executing_goal : Goal ℕ
executing_goal = record { goal = go; executing = true; cancel_requested = true; token = 77 }

-- What comes after the cancel has taken the lock.
abbrev since_cancel : List (GoalId × Event ℕ)
since_cancel =
    (1, advances willing)
    ∷ (1, advances willing)
    ∷ (1, advances willing)
    ∷ (1, advances willing)
    ∷ (1, advances willing)
    ∷ (1, advances willing)
    ∷ (1, advances willing)
    ∷ (1, plan_done plan_found)
    ∷ (1, cancel_calls)
    ∷ []

cancel_not_lost_example :
    (stop_sent 77 (Server.after arm_names unchecked handed_over 1).log
      || stop_pending 77 (Server.after arm_names unchecked handed_over 1).cancels)
    ≡ true
unfolding Server.after Server.move Server.on_accepted Server.lock_cancel Server.call_cancel
    Server.on_plan_done Server.advance verdict malformed_point joint_names_rejection
cancel_not_lost_example =
    cancel_not_lost arm_names unchecked since_cancel [] [] 1 go executing_goal refl refl
