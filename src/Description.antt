-- ===== src/Description.antt =====
-- robot_description.cpp: waiting for the model, watching for another one, and the joint names of
-- /joint_states. The urdf library is a parameter.
pub mod Wait
use kinova_gen3_ros.Common.{
  ℕ, zero, suc, ◌+◌, Bool, not, ◌&&◌, List, [], ◌∷◌, ◌++◌, Option, none, some, ltb, ◌==◌, string_eq,
  if◌then◌else◌,
}
use kinova_gen3_ros.Common.Text.{String}
use kinova_gen3_ros.Common.Text.{◌++◌ as ◌<>◌}
use kinova_gen3_ros.Common.Results.{Result, returns, throws}

abbrev pub robot_description_topic : String
robot_description_topic = "/arm/robot_description"

abbrev pub gripper_joint : String
gripper_joint = "arm_robotiq_85_left_knuckle_joint"

-- What one round of the wait meets: rclcpp::ok(), the clock, and the last message that the
-- subscription's callback is given in the spin.
pub record Spin : Type 0 where
  pub ok : Bool
  pub now_ms : ℕ
  pub delivered : Option String

-- The callback's assignment, when it ran.
abbrev pub received : Option String → Option String → Option String
received xml none = xml
received xml (some m) = some m

-- The loop of wait_for_robot_description from round `i` on, by the model it holds; the outer `none`
-- is fuel that is used up.
unfoldable pub await_model : ℕ → ℕ → (ℕ → Spin) → ℕ → Option String → Option (Option String)
await_model zero deadline spins i xml = none
await_model (suc fuel) deadline spins i (some m) = some (some m)
await_model (suc fuel) deadline spins i none =
    let rest = await_model fuel deadline spins (suc i) (received none (spins i).delivered) in
    if (spins i).ok && ltb (spins i).now_ms deadline then rest else some none

-- wait_for_robot_description, with a timeout in milliseconds.
unfoldable pub wait_for_robot_description : ℕ → ℕ → ℕ → (ℕ → Spin) → Option (Option String)
unfolding await_model
wait_for_robot_description fuel start_ms timeout_ms spins =
    await_model fuel (start_ms + timeout_ms) spins 0 none

-- The callback of watch_robot_description: whether `on_change` is called for a message.
unfoldable pub is_change : String → String → Bool
is_change in_use message = not (message == in_use)

-- urdf::Model, of a text: whether it can be parsed, and whether the model has a joint of this name.
pub record Urdf : Type 0 where
  pub init_string : String → Bool
  pub get_joint : String → String → Bool

unfoldable pub joint_state_names : Urdf → String → List String → Result (List String)
joint_state_names urdf urdf_xml arm_joints =
    if not (urdf.init_string urdf_xml)
    then throws (robot_description_topic <> " is not a parseable URDF")
    else if not (urdf.get_joint urdf_xml gripper_joint)
    then throws (
        robot_description_topic
        <> (" has no joint '"
            <> (gripper_joint <> "': is arm_state_publisher serving the arm_ model?")))
    else returns (arm_joints ++ (gripper_joint ∷ []))
