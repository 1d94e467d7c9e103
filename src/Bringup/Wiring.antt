-- ===== src/Bringup/Wiring.antt =====
-- main in bringup_node.cpp: what it hands the RT executor, the goal servers, the supervisor, the
-- contact server and the two latched status topics, for an arm that it drives. The constants of the
-- executor's configuration (sleep-spin pacing, and a `true` that core names) and the sinks, of which each server has
-- one, are left out.
pub mod Coherent
use kinova_gen3_ros.Common.{
  ℕ, zero, suc, Bool, true, false, not, List, [], ◌∷◌, Option, none, some, ◌==◌, string_eq,
  if◌then◌else◌,
}
use kinova_gen3_ros.Common.Text.{String}
use kinova_gen3_ros.Common.Int.{ℤ}
use kinova_gen3_ros.Driver.{num_joints}
use kinova_gen3_ros.Contact.Params.{
  ContactNodeConfig, ContactMonitorConfig, ContactProfiles, FloatParams,
}
use kinova_gen3_ros.Bringup.{Options}
use kinova_gen3_ros.Bringup.Startup.{Drive}

pub record ExecutorConfig (W : Type 0) : Type 0 where
  pub rate : W
  pub priority : ℤ
  pub cpu : ℤ
  pub exit_on_fault : Bool

-- The members of the supervisor's dependencies that depend on what main has read.
pub record SupervisorDeps (W : Type 0) : Type 0 where
  pub contact : Option (ContactMonitorConfig W)
  pub contact_profiles : ContactProfiles W

pub record Wiring (W : Type 0) : Type 0 where
  pub executor : ExecutorConfig W
  pub attached : Option (ContactMonitorConfig W × FloatParams W)  -- exec.attach_contact
  pub arm_joints : List String  -- the goal servers'
  pub deps : SupervisorDeps W
  pub arbitration_device : String
  pub link_device : String
  pub contact_detection : String  -- the contact server's
  pub contact_debug_topic : Bool
  pub contact_joints : Option (List String)  -- `none`: the range ends behind the names
  pub clears_contact : Bool  -- whether `clear_contact` is set

-- {js_names.begin(), js_names.begin() + n}
unfoldable pub first : ℕ → List String → Option (List String)
first zero names = some []
first (suc n) [] = none
first (suc n) (x ∷ names) = elim (first n names) [ none ↦ none | some rest ↦ some (x ∷ rest) ]

module _ {W : Type 0} where
  -- The optional `contact`, and `floating` with it.
  unfoldable pub monitor_of : ContactNodeConfig W → Option (ContactMonitorConfig W × FloatParams W)
  monitor_of c = if not (c.detection == "off") then some (c.monitor, c.floating) else none

  unfoldable pub device : Options W → String
  device o = if o.use_sim then "sim" else o.ip

  unfoldable pub executor_config : Options W → ExecutorConfig W
  executor_config o = record { rate = o.rate; priority = o.prio; cpu = o.cpu; exit_on_fault = true }

  -- contact ? &*contact : nullptr
  abbrev pub pointer :
      Option (ContactMonitorConfig W × FloatParams W) → Option (ContactMonitorConfig W)
  pointer none = none
  pointer (some c) = some (c.0)

  -- Whether the optional has a value.
  abbrev pub has_value : Option (ContactMonitorConfig W × FloatParams W) → Bool
  has_value none = false
  has_value (some c) = true

module _ {W S : Type 0} where
  -- `arm_joints` is dyn->joint_names().
  unfoldable pub wire : List String → Drive W S → Wiring W
  unfolding monitor_of device executor_config first
  wire arm_joints r = record {
    executor = executor_config r.options;
    attached = monitor_of r.contact;
    arm_joints = arm_joints;
    deps = record {
      contact = pointer (monitor_of r.contact);
      contact_profiles = r.contact.profiles;
    };
    arbitration_device = device r.options;
    link_device = device r.options;
    contact_detection = r.contact.detection;
    contact_debug_topic = r.contact.debug_topic;
    contact_joints = first num_joints r.js_names;
    clears_contact = has_value (monitor_of r.contact);
  }
