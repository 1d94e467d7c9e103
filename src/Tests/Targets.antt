-- ===== src/Tests/Targets.antt =====
-- Witnesses: the validations of the GoTo actions on concrete goals.
use kinova_gen3_ros.Common.{
  false, true, ℕ, ◌≡◌, refl, List, [], ◌∷◌, Option, none, some, length, ◌==◌, string_eq,
  if◌then◌else◌,
}
use kinova_gen3_ros.Common.Text.{String}
use kinova_gen3_ros.Mapping.Limits.{speed_scale_rejection, ee_pose_frame_rejection}
use kinova_gen3_ros.Legs.{blend_radius_rejection}
use kinova_gen3_ros.GoTo.{
  PoseTarget, validate_ee_poses, validate_preset, find_preset, load_preset_registry, load_presets,
  with_defaults, pose_rejection, sum_squares, hold_rejection, known_hold, listed,
}
use kinova_gen3_ros.Planner.{Outcome}
use kinova_gen3_ros.Planner.Holds.{BlendGoal}
use kinova_gen3_ros.GoTo.Plans.{CuroboServers, poses_world}
use kinova_gen3_ros.GoTo.Plans.Blends.{Blends, accepted_poses_blend}
use kinova_gen3_ros.GoTo.Presets.{configured, accepted_preset_whole}
use kinova_gen3_ros.Tests.{thousandths, gen3, at_rest, trajectory}

-- In thousandths, the orientation (0, 0, 0, 1) is its own norm.
abbrev pose_target : PoseTarget ℕ
pose_target = record {
  frame_id = "arm_mount";
  pose = record { position = 100 ∷ 200 ∷ 300 ∷ []; orientation = 0 ∷ 0 ∷ 0 ∷ 1000 ∷ [] };
  speed_scale = 500;
  orientation_hold = 1;
  blend_radius = 50;
}

abbrev pose_targets : List (PoseTarget ℕ)
pose_targets = pose_target ∷ pose_target ∷ []

-- A server that answers with the planned motion of nothing.
abbrev still : Outcome ℕ
still = record { ok = true; message = ""; trajectory = trajectory; goal_mismatch_rad = 0 }

abbrev still_servers : CuroboServers ℕ
still_servers = record { plan_pose = λ g. still; plan_joints = λ g. still; blend_legs = λ g. still }

accepted_poses_blend_example :
    (g : BlendGoal ℕ (List ℕ)) × ((poses_world still_servers true pose_targets (λ n. false)).blended
        (trajectory ∷ trajectory ∷ [])
      ≡ still)
    × Blends pose_targets (trajectory ∷ trajectory ∷ []) g
unfolding validate_ee_poses ee_pose_frame_rejection pose_rejection sum_squares speed_scale_rejection
    hold_rejection known_hold blend_radius_rejection
accepted_poses_blend_example =
    accepted_poses_blend still_servers pose_targets (λ n. false) (trajectory ∷ trajectory ∷ []) refl

-- "rest" has a parameter of the wrong size, "home" its default.
abbrev parameters : String → Option (List ℕ)
parameters name = if name == "rest" then some (1 ∷ []) else none

abbrev defaults : List (String × List ℕ)
defaults = ("home", at_rest) ∷ ("rest", at_rest) ∷ []

accepted_preset_whole_example :
    (find_preset (load_preset_registry parameters [] defaults) "home"
      ≡ some (configured parameters defaults "home"))
    × (length (configured parameters defaults "home") ≡ 7)
unfolding validate_preset load_preset_registry load_presets with_defaults find_preset listed
    speed_scale_rejection
accepted_preset_whole_example = accepted_preset_whole parameters [] defaults 500 "home" refl
