-- ===== src/Mapping/Limits.antt =====
-- message_mapping.cpp: speed scales, contact stops, frames and the gripper's values.
use kinova_gen3_ros.Common.{
  Bool, true, false, not, ◌||◌, Option, none, some, ◌==◌, string_eq, if◌then◌else◌, ◌≡◌, ◌↔◌, ◌≢◌,
  arith,
}
use kinova_gen3_ros.Common.Text.{String, ◌++◌}
use kinova_gen3_ros.Common.Int.{succ, print_ℤ}
use kinova_gen3_ros.Driver.{ContactPhase, latched, ContactState, GripperSetpoint, GripperState}
use kinova_gen3_ros.Messages.{GripperSetpointMsg, GripperStateMsg}
use kinova_gen3_ros.Externals.{Double, IsOrdered, Packages}

module _ {W : Type 0} ⦃d : Double W⦄ ⦃k : Packages W⦄ where
  unfoldable pub speed_scale_rejection : W → Option String
  speed_scale_rejection s =
      if not (d.is_finite s)
      then some "speed_scale must be finite"
      else if d.lt s k.min_speed_scale || d.lt (d.decimal 1 0) s
      then some (
          "speed_scale must be in ["
          ++ (d.show_g k.min_speed_scale ++ (", 1]; got " ++ d.show_g s)))
      else none

abbrev pub is_latched : ContactPhase → Bool
is_latched latched = true
is_latched _ = false

module _ {W : Type 0} where
  unfoldable pub contact_rejection : ContactState W → Option String
  contact_rejection s =
      if not s.enabled || not (is_latched s.status.phase)
      then none
      else some (
          "stopped on unexpected contact"
          ++ ((if s.status.has_trip
                then " (joint " ++ (print_ℤ (succ s.status.last.joint) ++ ")")
                else "")
              ++ "; call /clear_faults"))

  -- New work is refused for a contact stop exactly while detection is on and a stop is latched.
  pub contact_refused_iff :
      (s : ContactState W)
      → (contact_rejection s ≢ none) ↔ ((s.enabled ≡ true) × (s.status.phase ≡ latched))
  unfolding contact_rejection
  contact_refused_iff s = ground arith

unfoldable pub ee_pose_frame_rejection : String → Option String
ee_pose_frame_rejection frame_id =
    if frame_id == "arm_mount"
    then none
    else if frame_id == "base_link"
    then some (
        "frame_id 'base_link' is no longer accepted: "
        ++ ("Cartesian goals are in 'arm_mount' (gravity-aligned), which differs from the arm's base "
            ++ "on a tilted mount"))
    else some ("frame_id '" ++ (frame_id ++ "' != arm_mount"))

unfoldable pub pose_plan_frame_rejection : String → Option String
pose_plan_frame_rejection plan_frame =
    if plan_frame == "arm_mount"
    then none
    else some (
        "the planner's trajectory is in frame '"
        ++ ((if plan_frame == "" then "(unset)" else plan_frame)
            ++ ("', not arm_mount. Deploy a cuRobo that plans in arm_mount (it reads "
                ++ ("/arm/robot_description and stamps header.frame_id); joint-space goals "
                    ++ "are unaffected"))))

module _ {W : Type 0} ⦃d : Double W⦄ where
  -- kKnuckleUpperRad is 0.8.
  unfoldable pub gripper_to_knuckle_rad : W → W
  gripper_to_knuckle_rad normalized = d.mul normalized (d.decimal 8 1)

module _ {W : Type 0} where
  unfoldable pub to_gripper_setpoint : GripperSetpointMsg W → GripperSetpoint W
  to_gripper_setpoint m = record {
    command = record { position = m.position; speed = m.speed; force = m.force };
    token = m.token;
  }

  unfoldable pub to_gripper_state_msg : GripperState W → GripperStateMsg W
  to_gripper_state_msg g = record {
    position = g.position;
    effort = g.effort;
    current = g.current;
    present = g.present;
  }

module _ {W : Type 0} ⦃d : Double W⦄ ⦃k : Packages W⦄ where
  -- Over doubles whose comparisons are an order away from NaN, and with a finite floor, a speed
  -- scale is accepted exactly when it is finite and lies between the driver's floor and 1.
  pub speed_scale_accepted_iff :
      IsOrdered W
      → d.is_finite k.min_speed_scale ≡ true
      → (s : W)
      → (speed_scale_rejection s ≡ none) ↔ (
          (d.is_finite s ≡ true)
          × (d.le k.min_speed_scale s ≡ true)
          × (d.le s (d.decimal 1 0) ≡ true))
  unfolding speed_scale_rejection
  speed_scale_accepted_iff o floor s =
      ground (
        arith,
        o.lt-not-le s k.min_speed_scale,
        o.lt-not-le (d.decimal 1 0) s,
        o.decimal_finite 1 0,
      )
