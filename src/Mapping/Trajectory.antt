-- ===== src/Mapping/Trajectory.antt =====
-- Trajectories, tolerances, feedback and results: message_mapping.cpp and joint_point.h.
pub mod Profile
use kinova_gen3_ros.Common.{
  ℕ, Bool, true, false, not, ◌&&◌, List, [], ◌∷◌, ◌++◌, map, length, replicate, is_empty, String,
  ◌==◌, ℕ_eq, if◌then◌else◌,
}
use kinova_gen3_ros.Common.Int.{pos}
use kinova_gen3_ros.Driver.{
  num_joints, ControlModeKind, ImpedanceGains, JointWaypoint, Trajectory, TrajectoryGoal,
  TrajectoryFeedback, TrajectoryResult, latest_wins,
}
use kinova_gen3_ros.Messages.{
  Duration, JointTrajectoryPoint, JointTrajectory, JointTolerance, ExecuteFeedback, MoveResult,
  MoveFeedback,
}
use kinova_gen3_ros.Externals.{Double, Packages}

-- `for (int i = 0; i < kNumJoints && i < src.size(); ++i) v[i] = src[i]` on the entries of `v`.
unfoldable pub copy_into {ℓ} : {A : Type ℓ} → List A → List A → List A
copy_into [] src = []
copy_into (v ∷ vs) [] = v ∷ vs
copy_into (v ∷ vs) (x ∷ src) = x ∷ copy_into vs src

module _ {W : Type 0} ⦃d : Double W⦄ where
  abbrev pub zero_vec : List W
  zero_vec = replicate num_joints (d.decimal 0 0)

  -- Absent tolerances are -1, which disables the guard.
  unfoldable pub tol_to_vec : List (JointTolerance W) → List W
  unfolding copy_into
  tol_to_vec t =
      let disabled = replicate num_joints (d.neg (d.decimal 1 0)) in
      if is_empty t then disabled else copy_into disabled (map (λ x. x.position) t)

  unfoldable pub seconds : Duration → W
  seconds t = d.add (d.of_ℤ t.sec) (d.mul (d.of_ℤ (pos t.nanosec)) (d.decimal 1 9))

module _ {W : Type 0} where
  -- The loop that decides whether every point carries one of the profiles.
  unfoldable pub all_sized :
      (JointTrajectoryPoint W → List W) → Bool → List (JointTrajectoryPoint W) → Bool
  all_sized field acc [] = acc
  all_sized field acc (p ∷ ps) = all_sized field (acc && length (field p) == num_joints) ps

module _ {W : Type 0} ⦃d : Double W⦄ ⦃k : Packages W⦄ where
  unfoldable pub to_waypoint : Bool → Bool → JointTrajectoryPoint W → JointWaypoint W
  unfolding copy_into seconds
  to_waypoint all_vel all_acc p = record {
    q = copy_into zero_vec p.positions;
    t_s = seconds p.time_from_start;
    qd = if all_vel then copy_into k.blank_rates p.velocities else k.blank_rates;
    qdd = if all_acc then copy_into k.blank_rates p.accelerations else k.blank_rates;
  }

  unfoldable pub fill_trajectory : List (JointTrajectoryPoint W) → Trajectory W → Trajectory W
  unfolding all_sized to_waypoint
  fill_trajectory points tr =
      let all_vel = all_sized (λ p. p.velocities) (not (is_empty points)) points in
      let all_acc = all_sized (λ p. p.accelerations) (not (is_empty points)) points in
      record tr {
        points = tr.points ++ map (to_waypoint all_vel all_acc) points;
        has_velocities = all_vel;
        has_accelerations = all_vel && all_acc;
      }

  -- The overload for a planned trajectory. `path_tolerance`, `sender_id` and `token` are set by
  -- the caller.
  unfoldable pub to_planned_goal :
      JointTrajectory W → W → ControlModeKind → ImpedanceGains W → TrajectoryGoal W
  unfolding fill_trajectory
  to_planned_goal traj speed_scale control_mode gains = record k.blank_goal {
    trajectory = fill_trajectory traj.points (k.blank_goal).trajectory;
    control_mode = control_mode;
    gains = gains;
    preemption = latest_wins;
    speed_scale = speed_scale;
  }

  -- joint_point.h
  unfoldable pub vec_to_point : List W → JointTrajectoryPoint W
  unfolding copy_into
  vec_to_point v = record k.blank_point { positions = copy_into zero_vec v }

  unfoldable pub to_feedback_msg : TrajectoryFeedback W → ExecuteFeedback W
  unfolding vec_to_point
  to_feedback_msg fb = record {
    desired = vec_to_point fb.desired;
    actual = vec_to_point fb.actual;
    error = vec_to_point fb.error;
    fraction_complete = d.to_float fb.fraction_complete;
  }

  unfoldable pub to_result_msg : TrajectoryResult W → MoveResult W
  unfolding vec_to_point
  to_result_msg r = record {
    error_code = r.error_code;
    error_string = r.error_string;
    final_error = vec_to_point r.final_error;
  }

  unfoldable pub to_goto_feedback_msg : TrajectoryFeedback W → MoveFeedback W
  unfolding vec_to_point
  to_goto_feedback_msg fb = record {
    phase = "executing";
    planner_state = "";
    fraction_complete = d.to_float fb.fraction_complete;
    actual = vec_to_point fb.actual;
  }
