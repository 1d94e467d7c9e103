-- ===== src/GoTo/Targets.antt =====
-- goto_ee_poses_server.h and goto_joint_configs_server.h: the validation of goals over several
-- targets.
use kinova_gen3_ros.Common.{
  ℕ, suc, ◌≡◌, ◌≢◌, ◌↔◌, true, List, [], ◌∷◌, none, All, every, arith, ℕ_eq,
}
use kinova_gen3_ros.Externals.{Double, Packages}
use kinova_gen3_ros.Mapping.Limits.{speed_scale_rejection, ee_pose_frame_rejection}
use kinova_gen3_ros.Legs.{blend_radius_rejection}
use kinova_gen3_ros.GoTo.{
  PoseTarget, JointTarget, known_hold, hold_rejection, pose_rejection, joints_rejection,
  pose_target_rejection, pose_targets_rejection, validate_ee_poses, joint_targets_rejection,
  validate_joint_configs,
}

module _ {W : Type 0} (k : Packages W) where
  hold_accepted : (h : ℕ) → (hold_rejection k h ≡ none) ↔ (known_hold k h ≡ true)
  unfolding hold_rejection known_hold
  hold_accepted h = ground arith

module _ {W : Type 0} ⦃d : Double W⦄ ⦃k : Packages W⦄ where
  -- What one pose target must be.
  abbrev pub PoseTargetFits : PoseTarget W → Type 0
  PoseTargetFits t =
      (ee_pose_frame_rejection t.frame_id ≡ none)
      × (pose_rejection t.pose ≡ none)
      × (speed_scale_rejection t.speed_scale ≡ none)
      × (known_hold k t.orientation_hold ≡ true)
      × (blend_radius_rejection t.blend_radius ≡ none)

  pose_targets_accepted :
      (i : ℕ) (ts : List (PoseTarget W))
      → (pose_targets_rejection i ts ≡ none) ↔ All PoseTargetFits ts
  unfolding pose_targets_rejection pose_target_rejection
  pose_targets_accepted i [] = ground arith
  pose_targets_accepted i (t ∷ ts) =
      ground (arith, pose_targets_accepted (suc i) ts, hold_accepted k t.orientation_hold)

  -- A GoToEEPoses goal is accepted exactly when it has targets and each of them is in arm_mount,
  -- has a finite pose with a unit quaternion, an acceptable speed scale, a known hold and an
  -- acceptable blend radius.
  pub ee_poses_accepted_iff :
      (ts : List (PoseTarget W))
      → (validate_ee_poses ts ≡ none) ↔ ((ts ≢ []) × All PoseTargetFits ts)
  unfolding validate_ee_poses
  ee_poses_accepted_iff ts = ground (arith, pose_targets_accepted 0 ts)

  -- What one joint target must be.
  abbrev pub JointTargetFits : JointTarget W → Type 0
  JointTargetFits t =
      (every d.is_finite t.target_joints ≡ true)
      × (speed_scale_rejection t.speed_scale ≡ none)
      × (blend_radius_rejection t.blend_radius ≡ none)

  joints_accepted :
      (i : ℕ) (qs : List W) → (joints_rejection i qs ≡ none) ↔ (every d.is_finite qs ≡ true)
  unfolding joints_rejection
  joints_accepted i [] = ground arith
  joints_accepted i (q ∷ qs) = ground (arith, joints_accepted (suc i) qs)

  joint_targets_accepted :
      (i : ℕ) (ts : List (JointTarget W))
      → (joint_targets_rejection i ts ≡ none) ↔ All JointTargetFits ts
  unfolding joint_targets_rejection
  joint_targets_accepted i [] = ground arith
  joint_targets_accepted i (t ∷ ts) =
      ground (arith, joint_targets_accepted (suc i) ts, joints_accepted 0 t.target_joints)

  -- A GoToJointConfigs goal is accepted exactly when it has targets and each of them has finite
  -- joint angles, an acceptable speed scale and an acceptable blend radius.
  pub joint_configs_accepted_iff :
      (ts : List (JointTarget W))
      → (validate_joint_configs ts ≡ none) ↔ ((ts ≢ []) × All JointTargetFits ts)
  unfolding validate_joint_configs
  joint_configs_accepted_iff ts = ground (arith, joint_targets_accepted 0 ts)
