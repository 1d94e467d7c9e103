-- ===== src/Backend/State.antt =====
-- ros2_backend.cpp: publish_state and diagnostics. The pump thread calls the first, a ROS timer the
-- second; they share single atomics, each of which is read or written whole. The tick counter is a
-- C++ int, whose overflow after 2^31 ticks is outside the model. Publishing is recorded, newest
-- message first.
use kinova_gen3_ros.Common.{
  ℕ, suc, ◌≡◌, ◌+◌, ◌%◌, refl, ap, ◌↔◌, Bool, true, false, not, List, [], ◌∷◌, ◌++◌, Option, none,
  some, length, length-append, ◌==◌, ℕ_eq, arith, Bool-cases, inl, inr, if_yes, if_no,
  if◌then◌else◌,
}
use kinova_gen3_ros.Common.Text.{String}
use kinova_gen3_ros.Common.Text.{◌++◌ as text_append}
use kinova_gen3_ros.Diagnostics.{Level, ok, error, stale}
use kinova_gen3_ros.Driver.{num_joints, GripperState}
use kinova_gen3_ros.Externals.{Double}
use kinova_gen3_ros.Mapping.Trajectory.{copy_into, zero_vec}
use kinova_gen3_ros.Mapping.Trajectory.Profile.{length-copy_into}
use kinova_gen3_ros.Mapping.Limits.{gripper_to_knuckle_rad}

-- ArmState. The pose is carried on whole, with the twist and the wrench in core's packing.
pub record ArmState (W P : Type 0) : Type 0 where
  pub q : List W
  pub qd : List W
  pub tau : List W
  pub fault : Bool
  pub stamp_s : W
  pub ee_pose : P
  pub ee_twist : List W
  pub ee_wrench : List W

-- sensor_msgs/JointState
pub record JointState (W : Type 0) : Type 0 where
  pub name : List String
  pub position : List W
  pub velocity : List W
  pub effort : List W

-- rammp_arm_interfaces/EeState
pub record EeState (W P : Type 0) : Type 0 where
  pub frame_id : String
  pub pose : P
  pub twist : List W
  pub wrench : List W

pub record Pump (W P : Type 0) : Type 0 where
  pub fault : Bool
  pub arm_stamp_s : W
  pub ever_published : Bool
  pub last_publish_ns : ℕ
  pub state_tick : ℕ
  pub joint_states : List (JointState W)
  pub ee_states : List (EeState W P)

module _ {W : Type 0} ⦃d : Double W⦄ (arm_joint_names : List String)
    (gripper_joint_name : String) where
  -- The gripper's column, when a gripper is wired.
  add_gripper : Option (GripperState W) → JointState W → JointState W
  add_gripper none m = m
  add_gripper (some g) m = record {
    name = m.name ++ (gripper_joint_name ∷ []);
    position = m.position ++ (gripper_to_knuckle_rad g.position ∷ []);
    velocity = m.velocity ++ (d.nan ∷ []);
    effort = m.effort ++ (d.nan ∷ []);
  }

  unfoldable pub joint_state : {P : Type 0} → ArmState W P → Option (GripperState W) → JointState W
  unfolding add_gripper
  joint_state s gripper = add_gripper gripper (record {
    name = arm_joint_names;
    position = copy_into zero_vec s.q;
    velocity = copy_into zero_vec s.qd;
    effort = copy_into zero_vec s.tau;
  })

  unfoldable pub publish_state :
      {P : Type 0} → ℕ → ℕ → ArmState W P → Option (GripperState W) → Pump W P → Pump W P
  unfolding joint_state
  publish_state state_divisor now_ns s gripper p =
      let seen = record p {
        fault = s.fault;
        arm_stamp_s = s.stamp_s;
        ever_published = true;
        last_publish_ns = now_ns;
        state_tick = p.state_tick + 1;
      } in
      if not (p.state_tick % state_divisor == 0) then seen else record seen {
        joint_states = joint_state s gripper ∷ p.joint_states;
        ee_states =
            record {
              frame_id = "arm_mount";
              pose = s.ee_pose;
              twist = s.ee_twist;
              wrench = s.ee_wrench;
            }
            ∷ p.ee_states;
      }

module _ {W P : Type 0} ⦃d : Double W⦄ where
  -- The summary of the diagnostics, given the age in seconds of the last publish.
  unfoldable pub diagnostics : W → Pump W P → Level × String
  diagnostics age_s p =
      if not p.ever_published
      then (stale, "no feedback from the arm yet")
      else if d.lt (d.decimal 1 0) age_s
      then (
        stale,
        text_append "no feedback from the arm for " (text_append (d.show_int age_s) " s"),
      )
      else if p.fault
      then (error, "arm reports a fault")
      else (ok, "OK")

  abbrev pub silent : Pump W P
  silent = record {
    fault = false;
    arm_stamp_s = d.decimal 0 0;
    ever_published = false;
    last_publish_ns = 0;
    state_tick = 0;
    joint_states = [];
    ee_states = [];
  }

module _ {W : Type 0} where
  -- A message whose four columns have one entry for each of its names.
  abbrev pub Aligned : JointState W → Type 0
  Aligned m =
      (length m.position ≡ length m.name)
      × (length m.velocity ≡ length m.name)
      × (length m.effort ≡ length m.name)

  abbrev pub AllAligned : List (JointState W) → Type 0
  AllAligned [] = Unit
  AllAligned (m ∷ ms) = Aligned m × AllAligned ms

module _ {W : Type 0} ⦃d : Double W⦄ where
  sized : (v : List W) → length (copy_into zero_vec v) ≡ 7
  sized v = length-copy_into zero_vec v

-- One call of publish_state: the clock, the arm's state and the gripper's.
pub record Tick (W P : Type 0) : Type 0 where
  pub now_ns : ℕ
  pub state : ArmState W P
  pub gripper : Option (GripperState W)

module _ {W P : Type 0} ⦃d : Double W⦄ (arm_joint_names : List String) (gripper_joint_name : String)
    (state_divisor : ℕ) where
  -- The pump after a history of ticks, its newest first.
  pub after : List (Tick W P) → Pump W P
  unfolding publish_state
  after [] = silent
  after (t ∷ h) =
      publish_state arm_joint_names gripper_joint_name state_divisor t.now_ns t.state t.gripper
        (after h)

  joint_state-Aligned :
      (s : ArmState W P) (g : Option (GripperState W))
      → length arm_joint_names ≡ num_joints
      → Aligned (joint_state arm_joint_names gripper_joint_name s g)
  unfolding joint_state add_gripper
  joint_state-Aligned s none e = ground (arith, e, sized s.q, sized s.qd, sized s.tau)
  joint_state-Aligned s (some g) e = ground (
    arith,
    e,
    sized s.q,
    sized s.qd,
    sized s.tau,
    length-append arm_joint_names (gripper_joint_name ∷ []),
    length-append (copy_into zero_vec s.q) (gripper_to_knuckle_rad g.position ∷ []),
    length-append (copy_into zero_vec s.qd) (d.nan ∷ []),
    length-append (copy_into zero_vec s.tau) (d.nan ∷ []),
  )

  -- With the arm's seven joint names, every joint state ever published has one position, velocity
  -- and effort for each of its names, with a gripper and without, and each goes out together with
  -- one end-effector state, whatever the divisor.
  pub joint_states_aligned :
      (h : List (Tick W P))
      → length arm_joint_names ≡ num_joints
      → AllAligned (after h).joint_states
        × (length (after h).ee_states ≡ length (after h).joint_states)
  unfolding after publish_state
  joint_states_aligned [] e = (tt, refl)
  joint_states_aligned (t ∷ h) e =
      let (all, paired) = joint_states_aligned h e in
      elim (Bool-cases ((after h).state_tick % state_divisor == 0)) [
        | inl y ↦
            rw (if_no _ _ (ap not y))
              ((joint_state-Aligned t.state t.gripper e, all), ap suc paired)
        | inr n ↦ rw (if_yes _ _ (ap not n)) (all, paired)
      ]

  -- The diagnostics judge the newest state alone, published or not: they report OK exactly when the
  -- newest state came at most one second ago and reports no fault, whatever the divisor.
  pub healthy_iff :
      (h : List (Tick W P)) (t : Tick W P) (age_s : W)
      → ((diagnostics age_s (after (t ∷ h))).0 ≡ ok)
        ↔ ((d.lt (d.decimal 1 0) age_s ≡ false) × (t.state.fault ≡ false))
  unfolding after publish_state diagnostics
  healthy_iff h t age_s = elim (Bool-cases ((after h).state_tick % state_divisor == 0)) [
    | inl y ↦ rw (if_no _ _ (ap not y)) (ground arith)
    | inr n ↦ rw (if_yes _ _ (ap not n)) (ground arith)
  ]
