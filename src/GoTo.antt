-- ===== src/GoTo.antt =====
-- The five GoTo actions: goto_ee_pose_server.h, goto_ee_poses_server.h, goto_joint_config_server.h,
-- goto_joint_configs_server.h and goto_preset_server.h. Each gives the shared lifecycle its own
-- validation and plan; here are the validations, and what the two actions over several targets hand
-- to the blend. A position and an orientation are lists of their numbers.
pub mod Targets
pub mod Presets
pub mod Plans
use kinova_gen3_ros.Common.{
  ℕ, zero, suc, Bool, true, false, not, ◌&&◌, ◌||◌, List, [], ◌∷◌, ◌++◌, map, Option, none, some,
  length, is_empty, every, ◌==◌, ℕ_eq, string_eq, list_eq, if◌then◌else◌,
}
use kinova_gen3_ros.Common.Text.{String, to_string}
use kinova_gen3_ros.Common.Text.{◌++◌ as text_append}
use kinova_gen3_ros.Driver.{num_joints}
use kinova_gen3_ros.Externals.{Double, Packages}
use kinova_gen3_ros.Mapping.Limits.{
  speed_scale_rejection, ee_pose_frame_rejection, pose_plan_frame_rejection,
}
use kinova_gen3_ros.Mapping.Names.{prefixed, ◌orelse◌}
use kinova_gen3_ros.Legs.{blend_radius_rejection}
use kinova_gen3_ros.Planner.{Outcome}

-- geometry_msgs/Pose: x, y, z and x, y, z, w.
pub record Pose (W : Type 0) : Type 0 where
  pub position : List W
  pub orientation : List W

-- rammp_arm_interfaces/EEPoseTarget
pub record PoseTarget (W : Type 0) : Type 0 where
  pub frame_id : String
  pub pose : Pose W
  pub speed_scale : W
  pub orientation_hold : ℕ
  pub blend_radius : W

-- rammp_arm_interfaces/JointConfigTarget; `target_joints` is float64[7].
pub record JointTarget (W : Type 0) : Type 0 where
  pub target_joints : List W
  pub speed_scale : W
  pub blend_radius : W

abbrev is_none {ℓ} : {A : Type ℓ} → Option A → Bool
is_none none = true
is_none (some _) = false

infix 40 ◌or_else◌
abbrev pub ◌or_else◌ {ℓ} : {A : Type ℓ} → Option A → A → A
none or_else b = b
some a or_else b = a

abbrev reject : Bool → String → Option String
reject true why = some why
reject false why = none

module _ {W : Type 0} (k : Packages W) where
  -- The switch over the known holds.
  unfoldable pub known_hold : ℕ → Bool
  known_hold h = h == k.hold_none || h == k.hold_level || h == k.hold_fixed

  unfoldable pub hold_rejection : ℕ → Option String
  unfolding known_hold
  hold_rejection h = reject (not (known_hold h)) (
      text_append "unknown orientation_hold " (
        text_append (to_string h) (
          text_append " (expected HOLD_NONE=" (
            text_append (to_string k.hold_none) (
              text_append ", HOLD_LEVEL=" (
                text_append (to_string k.hold_level)
                  (text_append " or HOLD_FIXED=" (text_append (to_string k.hold_fixed) ")"))))))))

module _ {W : Type 0} ⦃d : Double W⦄ where
  -- The sum of the squares of an orientation's numbers, added from the left.
  unfoldable pub sum_squares : W → List W → W
  sum_squares acc [] = acc
  sum_squares acc (q ∷ qs) = sum_squares (d.add acc (d.mul q q)) qs

  abbrev pub norm : List W → W
  norm [] = d.sqrt (d.decimal 0 0)
  norm (q ∷ qs) = d.sqrt (sum_squares (d.mul q q) qs)

  unfoldable pub pose_rejection : Pose W → Option String
  unfolding sum_squares
  pose_rejection p =
      if not (every d.is_finite (p.position ++ p.orientation))
      then some "pose is not finite"
      else if not (d.lt (d.abs (d.sub (norm p.orientation) (d.decimal 1 0))) (d.decimal 1 3))
      then some (
          text_append "pose orientation is not a unit quaternion (norm "
            (text_append (d.to_text (norm p.orientation)) ")"))
      else none

  -- The first joint that is not finite, by its index from `i` on.
  unfoldable pub joints_rejection : ℕ → List W → Option String
  joints_rejection i [] = none
  joints_rejection i (q ∷ qs) =
      if not (d.is_finite q)
      then some (text_append "target_joints[" (text_append (to_string i) "] is not finite"))
      else joints_rejection (suc i) qs

-- `what[k]`
abbrev indexed : String → ℕ → String
indexed what k = text_append what (text_append "[" (text_append (to_string k) "]"))

module _ {W : Type 0} ⦃d : Double W⦄ ⦃k : Packages W⦄ where
  -- GoToEEPoseServer::validate
  unfoldable pub validate_ee_pose : String → W → ℕ → Option String
  validate_ee_pose frame_id speed_scale hold = prefixed "GoToEEPose: " (
      ee_pose_frame_rejection frame_id
      orelse speed_scale_rejection speed_scale
      orelse hold_rejection k hold)

  pose_target_rejection : PoseTarget W → Option String
  pose_target_rejection t =
      ee_pose_frame_rejection t.frame_id
      orelse pose_rejection t.pose
      orelse speed_scale_rejection t.speed_scale
      orelse hold_rejection k t.orientation_hold
      orelse blend_radius_rejection t.blend_radius

  pose_targets_rejection : ℕ → List (PoseTarget W) → Option String
  unfolding pose_target_rejection
  pose_targets_rejection i [] = none
  pose_targets_rejection i (t ∷ ts) =
      prefixed (text_append (indexed "GoToEEPoses: targets" i) ": ") (pose_target_rejection t)
      orelse pose_targets_rejection (suc i) ts

  -- GoToEEPosesServer::validate
  unfoldable pub validate_ee_poses : List (PoseTarget W) → Option String
  unfolding pose_targets_rejection
  validate_ee_poses targets =
      if is_empty targets
      then some "GoToEEPoses: no targets (at least one is needed)"
      else pose_targets_rejection 0 targets

  -- GoToJointConfigServer::validate
  unfoldable pub validate_joint_config : W → List W → Option String
  validate_joint_config speed_scale target_joints =
      prefixed "GoToJointConfig: "
        (speed_scale_rejection speed_scale orelse joints_rejection 0 target_joints)

  joint_targets_rejection : ℕ → List (JointTarget W) → Option String
  joint_targets_rejection i [] = none
  joint_targets_rejection i (t ∷ ts) =
      let what = indexed "GoToJointConfigs: targets" i in
      prefixed (text_append what ".") (joints_rejection 0 t.target_joints)
      orelse prefixed (text_append what ": ") (speed_scale_rejection t.speed_scale)
      orelse prefixed (text_append what ": ") (blend_radius_rejection t.blend_radius)
      orelse joint_targets_rejection (suc i) ts

  -- GoToJointConfigsServer::validate
  unfoldable pub validate_joint_configs : List (JointTarget W) → Option String
  unfolding joint_targets_rejection
  validate_joint_configs targets =
      if is_empty targets
      then some "GoToJointConfigs: no targets (at least one is needed)"
      else joint_targets_rejection 0 targets

module _ {W : Type 0} where
  -- The radii handed to the blend: every target's but the last one's.
  unfoldable pub radii : {T : Type 0} → (T → W) → List T → List W
  radii radius [] = []
  radii radius (t ∷ []) = []
  radii radius (t ∷ u ∷ ts) = radius t ∷ radii radius (u ∷ ts)

  -- check_plan of the two pose actions.
  unfoldable pub check_plan : String → Outcome W → Option String
  check_plan action o =
      prefixed (text_append action ": ") (pose_plan_frame_rejection o.trajectory.frame_id)

module _ {W : Type 0} where
  -- A preset is known when the registry, an association list, has its name.
  unfoldable pub find_preset : List (String × List W) → String → Option (List W)
  find_preset [] name = none
  find_preset ((n, q) ∷ reg) name =
      let rest = find_preset reg name in if n == name then some q else rest

module _ {W : Type 0} ⦃d : Double W⦄ ⦃k : Packages W⦄ where
  -- GoToPresetServer::validate
  unfoldable pub validate_preset : List (String × List W) → W → String → Option String
  validate_preset reg speed_scale name = prefixed "GoToPreset: " (
      speed_scale_rejection speed_scale
      orelse reject (is_none (find_preset reg name))
          (text_append "unknown preset '" (text_append name "'")))

-- Whether a name is among others.
unfoldable pub listed : String → List String → Bool
listed name [] = false
listed name (n ∷ ns) = n == name || listed name ns

module _ {W : Type 0} where
  -- `preset_names` with the names of the defaults that it omits, at the end.
  unfoldable pub with_defaults : List String → List (String × List W) → List String
  unfolding listed
  with_defaults names [] = names
  with_defaults names ((n, q) ∷ defaults) =
      with_defaults (if listed n names then names else names ++ (n ∷ [])) defaults

  -- The loop over the names: `param` gives a preset's parameter, or `none` when it is not set, and a
  -- preset without seven joint values is skipped.
  unfoldable pub load_presets :
      (String → Option (List W)) → (String → List W) → List String → List (String × List W)
  load_presets param default_of [] = []
  load_presets param default_of (n ∷ ns) =
      let q = (param n) or_else default_of n in
      let rest = load_presets param default_of ns in
      if length q == num_joints then (n, q) ∷ rest else rest

  -- load_preset_registry, with names that differ; each parameter is read once.
  unfoldable pub load_preset_registry :
      (String → Option (List W)) → List String → List (String × List W) → List (String × List W)
  unfolding load_presets with_defaults find_preset
  load_preset_registry param names defaults =
      load_presets param (λ n. find_preset defaults n or_else []) (with_defaults names defaults)
