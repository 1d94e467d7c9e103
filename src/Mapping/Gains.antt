-- ===== src/Mapping/Gains.antt =====
-- message_mapping.cpp: to_control_mode, to_impedance_gains, mode_gains_rejection, and the mapping
-- of a whole ExecuteJointTrajectory goal.
pub mod Admission
use kinova_gen3_ros.Common.{
  ℕ, Bool, true, false, not, ◌&&◌, Option, none, some, ltb, ◌==◌, ℕ_eq, if◌then◌else◌,
}
use kinova_gen3_ros.Common.Text.{String, ◌++◌, to_string}
use kinova_gen3_ros.Driver.{
  ControlModeKind, impedance, position, soft, medium, stiff, custom, queue, latest_wins,
  ImpedanceGains, CustomGains, TrajectoryGoal,
}
use kinova_gen3_ros.Messages.{ImpedanceGainsMsg, ExecuteGoal}
use kinova_gen3_ros.Externals.{
  Double, Packages, GainsCheck, profile_session_default, profile_custom,
}
use kinova_gen3_ros.Mapping.Trajectory.{copy_into, fill_trajectory, tol_to_vec, seconds}

-- 1 is impedance, anything else position; callers refuse an unknown byte first.
unfoldable pub to_control_mode : ℕ → ControlModeKind
to_control_mode m = if m == 1 then impedance else position

module _ {W : Type 0} ⦃k : Packages W⦄ where
  -- Only PROFILE_CUSTOM reads the message's numbers; an unknown byte leaves the default profile.
  unfoldable pub to_impedance_gains : ImpedanceGainsMsg W → ImpedanceGains W
  unfolding copy_into
  to_impedance_gains m =
      if m.profile == k.profile_soft
      then record k.blank_gains { profile = soft }
      else if m.profile == k.profile_medium
      then record k.blank_gains { profile = medium }
      else if m.profile == k.profile_stiff
      then record k.blank_gains { profile = stiff }
      else if m.profile == profile_custom
      then record {
        profile = custom;
        custom = record {
          kq = copy_into (k.blank_gains).custom.kq m.custom.kq;
          torque_limit = copy_into (k.blank_gains).custom.torque_limit m.custom.torque_limit;
          zeta = m.custom.zeta;
        };
      }
      else k.blank_gains

  custom_rejection : CustomGains W → Option String
  custom_rejection g = let c = k.validate_custom g in if not c.ok then some c.message else none

  unfoldable pub mode_gains_rejection : ℕ → ImpedanceGainsMsg W → Option String
  unfolding custom_rejection
  mode_gains_rejection control_mode g =
      if ltb 1 control_mode
      then some (
          "control_mode "
          ++ (to_string control_mode
              ++ " is not CONTROL_MODE_POSITION (0) or CONTROL_MODE_IMPEDANCE (1)"))
      else if ltb profile_custom g.profile
      then some (
          "unknown gains profile "
          ++ (to_string g.profile ++ " (expected PROFILE_SESSION_DEFAULT=0 .. PROFILE_CUSTOM=4)"))
      else if not (control_mode == 1) && not (g.profile == profile_session_default)
      then some
          ("gains (profile " ++ (to_string g.profile ++ ") supplied for a non-impedance command"))
      else if g.profile == profile_custom
      then custom_rejection (to_impedance_gains g).custom
      else none

  unfoldable pub to_trajectory_goal : ⦃d : Double W⦄ → ExecuteGoal W → TrajectoryGoal W
  unfolding fill_trajectory tol_to_vec seconds to_control_mode to_impedance_gains
  to_trajectory_goal g = record {
    trajectory = fill_trajectory g.trajectory.points (k.blank_goal).trajectory;
    path_tolerance = tol_to_vec g.path_tolerance;
    goal_tolerance = tol_to_vec g.goal_tolerance;
    goal_time_tolerance_s = seconds g.goal_time_tolerance;
    control_mode = to_control_mode g.control_mode;
    preemption = if g.preemption == 1 then latest_wins else queue;
    gains = to_impedance_gains g.gains;
    sender_id = g.sender_id;
    token = g.token;
    speed_scale = g.speed_scale;
  }
