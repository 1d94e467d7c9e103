-- ===== src/Tests/Goals.antt =====
-- Witnesses: the trajectory action, the state topics and the streaming sessions.
use kinova_gen3_ros.Common.{
  ℕ, ◌≡◌, ◌≢◌, ◌↔◌, ◌⊎◌, ◌+◌, refl, Bool, true, false, List, [], ◌∷◌, none, some, length, nat_eq,
}
use kinova_gen3_ros.Driver.{latched, TrajectoryResult, successful}
use kinova_gen3_ros.Mapping.Gains.{to_trajectory_goal, mode_gains_rejection}
use kinova_gen3_ros.Mapping.Limits.{speed_scale_rejection}
use kinova_gen3_ros.Mapping.Names.{TolerancesNamed}
use kinova_gen3_ros.PlannedMove.Plans.{Sized}
use kinova_gen3_ros.Backend.{CommandSink, handle_goal, handle_cancel, trajectory_cancel}
use kinova_gen3_ros.Backend.Goals as Goals
use kinova_gen3_ros.Backend.Goals.{
  Event, accepts, cancels, settles, live, is_live, acceptances, terminals, goal_executed_iff,
  cancel_replays_token, terminals_match_acceptances,
}
use kinova_gen3_ros.Backend.State as State
use kinova_gen3_ros.Backend.State.{
  Tick, ArmState, AllAligned, diagnostics, joint_states_aligned, healthy_iff,
}
use kinova_gen3_ros.Stream as Streaming
use kinova_gen3_ros.Stream.{
  ControllerRow, registry, find_row, StreamSink, StreamServer, StreamStatus, OpenStreamRequest,
}
use kinova_gen3_ros.Stream.Sessions.{Openable, session_opens_iff}
use kinova_gen3_ros.Tests.{
  thousandths, gen3, execute, arm_names, no_gains, clear_of_contact, at_rest,
}

abbrev supervisor : CommandSink ℕ
supervisor = record {
  query_contact = clear_of_contact;
  trajectory_goal = λ tg. true;
  trajectory_cancel = λ id token. true;
  set_gains = λ g token. record { accepted = true; message = "" };
}

goal_executed_iff_example : (handle_goal arm_names (some supervisor) execute ≡ true) ↔ (
    (execute.trajectory.points ≢ [])
    × Sized execute.trajectory.points
    × ((execute.trajectory.joint_names ≡ arm_names)
        × TolerancesNamed arm_names execute.path_tolerance
        × TolerancesNamed arm_names execute.goal_tolerance)
    × (speed_scale_rejection {W = ℕ} 500 ≡ none)
    × (mode_gains_rejection 0 no_gains ≡ none)
    × ((supervisor.query_contact.enabled ≡ false)
        ⊎ (supervisor.query_contact.status.phase ≢ latched))
    × (supervisor.trajectory_goal (to_trajectory_goal execute) ≡ true))
goal_executed_iff_example = goal_executed_iff arm_names supervisor execute

abbrev finished_well : TrajectoryResult ℕ
finished_well = record { error_code = successful; error_string = ""; final_error = at_rest }

-- A goal settled, then another accepted under a new identifier.
abbrev goals : List (Event ℕ)
goals =
    accepts 2 execute
    ∷ settles 1 finished_well
    ∷ cancels (some supervisor) 1
    ∷ accepts 1 execute
    ∷ []

cancel_replays_token_example :
    (handle_cancel (some supervisor) 2 (Goals.after goals)).0.log
    ≡ trajectory_cancel 2 77 ∷ (Goals.after goals).log
cancel_replays_token_example = cancel_replays_token goals 2 execute supervisor refl

terminals_match_acceptances_example :
    terminals 1 (Goals.after goals).log + is_live (live 1 goals) ≡ acceptances 1 goals
terminals_match_acceptances_example = terminals_match_acceptances goals 1 (refl, (refl, tt))

abbrev arm_state : ArmState ℕ ℕ
arm_state = record {
  q = at_rest;
  qd = at_rest;
  tau = at_rest;
  fault = false;
  stamp_s = 5;
  ee_pose = 0;
  ee_twist = [];
  ee_wrench = [];
}

abbrev tick : Tick ℕ ℕ
tick = record {
  now_ns = 3;
  state = arm_state;
  gripper = some (record { position = 500; effort = 0; current = 0; present = true });
}

joint_states_aligned_example :
    AllAligned (State.after arm_names "knuckle" 2 (tick ∷ tick ∷ tick ∷ [])).joint_states
    × (length (State.after arm_names "knuckle" 2 (tick ∷ tick ∷ tick ∷ [])).ee_states
        ≡ length (State.after arm_names "knuckle" 2 (tick ∷ tick ∷ tick ∷ [])).joint_states)
joint_states_aligned_example =
    joint_states_aligned arm_names "knuckle" 2 (tick ∷ tick ∷ tick ∷ []) refl

-- A core whose state is whether a session is open.
abbrev pub core : StreamSink Bool ℕ
core = record {
  stream_open = λ s req. (true, record { accepted = true; error_code = successful; message = "" });
  stream_close = λ s token. false;
  query_stream = λ s. record { is_open = s; timeout_s = 100; rejected_count = 0 };
}

abbrev pub twist_request : OpenStreamRequest ℕ
twist_request = record { controller = "ee_twist"; timeout_s = 100; gains = no_gains; token = 0 }

abbrev pub stream_server : StreamServer Bool ℕ
stream_server = record { core = false; open_controller = ""; last_published = none; published = [] }

session_opens_iff_example :
    ((Streaming.on_open nat_eq core twist_request stream_server).1.accepted ≡ true) ↔ (
      (r : ControllerRow) × (find_row "ee_twist" registry ≡ some r)
      × Openable nat_eq core twist_request stream_server r)
session_opens_iff_example = session_opens_iff nat_eq core twist_request stream_server
