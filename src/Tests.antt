-- ===== src/Tests.antt =====
-- Concrete values of the model's parameters, on which the theorems are tried: doubles as
-- thousandths, packages, an arbiter, and messages.
pub mod Motions
pub mod Messages
pub mod Servers
pub mod Planning
pub mod Goals
pub mod Streams
pub mod Targets
pub mod Devices
pub mod Links
pub mod Plans
pub mod Startup
pub mod Wirings
pub mod Nodes
pub mod Runs
use kinova_gen3_ros.Common.{
  ℕ, ◌≤◌, ◌+◌, ◌-◌, ◌*◌, ◌/◌, ◌^◌, ◌≡◌, ◌≢◌, refl, Bool, true, false, not, List, [], ◌∷◌, Option,
  none, some, length, replicate, ltb, leb, if◌then◌else◌, arith,
}
use kinova_gen3_ros.Common.Text.{String, to_string}
use kinova_gen3_ros.Common.Int.{ℤ, pos, negsuc}
use kinova_gen3_ros.Driver.{
  SetpointKind, ControlModeKind, joint_position, position, impedance, session_default, CustomGains,
  ImpedanceGains, TrajectoryGoal, latest_wins, Token, ContactState, enforce, default_profile, armed,
}
use kinova_gen3_ros.Messages.{
  Duration, JointTrajectoryPoint, JointTrajectory, ImpedanceGainsMsg, ExecuteGoal,
}
use kinova_gen3_ros.Externals.{Double, IsOrdered, Packages, IsDocumented, GainsCheck}
use kinova_gen3_ros.Arbitration.{
  ArbitrationStatus, enforced, GrantResult, ArbitrationSink, IsStoppable,
}

abbrev count_of : ℤ → ℕ
count_of (pos n) = n
count_of (negsuc n) = 0

instance abbrev pub thousandths : Double ℕ
thousandths = record {
  decimal = λ m k. m * 1000 / 10 ^ k;
  neg = λ x. 0;
  add = λ x y. x + y;
  sub = λ x y. x - y;
  mul = λ x y. x * y / 1000;
  sqrt = λ x. x;
  abs = λ x. x;
  nan = 0;
  of_ℤ = λ i. count_of i * 1000;
  to_float = λ x. x;
  lt = ltb;
  le = leb;
  is_finite = λ x. true;
  to_text = to_string;
  show_g = to_string;
  show_int = λ x. to_string (x / 1000);
  show_2f = to_string;
  fit = λ n s. s;
}

abbrev pub blank_custom : CustomGains ℕ
blank_custom = record { kq = []; torque_limit = []; zeta = 0 }

abbrev pub blank_gains_value : ImpedanceGains ℕ
blank_gains_value = record { profile = session_default; custom = blank_custom }

abbrev pub at_rest : List ℕ
at_rest = replicate 7 0

instance abbrev pub gen3 : Packages ℕ
gen3 = record {
  profile_soft = 1;
  profile_medium = 2;
  profile_stiff = 3;
  hold_none = 0;
  hold_level = 1;
  hold_fixed = 2;
  planner_hold_none = 10;
  planner_hold_level = 11;
  planner_hold_fixed = 12;
  validate_custom = λ g. record { ok = ltb 0 g.zeta; message = "zeta must be positive" };
  pair_supported = λ kind mode. true;
  min_speed_scale = 100;
  blank_gains = blank_gains_value;
  blank_rates = at_rest;
  blank_goal = record {
    trajectory = record { points = []; has_velocities = false; has_accelerations = false };
    path_tolerance = at_rest;
    goal_tolerance = at_rest;
    goal_time_tolerance_s = 0;
    control_mode = position;
    preemption = latest_wins;
    gains = blank_gains_value;
    sender_id = "";
    token = 0;
    speed_scale = 1000;
  };
  blank_point = record {
    positions = [];
    velocities = [];
    accelerations = [];
    time_from_start = record { sec = pos 0; nanosec = 0 };
  };
}

pub gen3-IsDocumented : IsDocumented gen3
gen3-IsDocumented = record {
  blank_profile = refl;
  profiles_differ = omega arith;
  soft_range = omega arith;
  medium_range = omega arith;
  stiff_range = omega arith;
  holds_differ = omega arith;
  blank_points = refl;
  rates_sized = refl;
}

pub thousandths-IsOrdered : IsOrdered ℕ
thousandths-IsOrdered = record { lt-not-le = λ x y f g. ground arith; decimal_finite = λ m k. refl }

-- A trajectory of two points, and the goal that carries it.
abbrev pub point : ℕ → JointTrajectoryPoint ℕ
point v = record {
  positions = replicate 7 v;
  velocities = replicate 7 1;
  accelerations = [];
  time_from_start = record { sec = pos v; nanosec = 0 };
}

abbrev pub arm_names : List String
arm_names = "j1" ∷ "j2" ∷ "j3" ∷ "j4" ∷ "j5" ∷ "j6" ∷ "j7" ∷ []

abbrev pub trajectory : JointTrajectory ℕ
trajectory = record { frame_id = ""; joint_names = arm_names; points = point 1 ∷ point 2 ∷ [] }

abbrev pub no_gains : ImpedanceGainsMsg ℕ
no_gains = record { profile = 0; custom = blank_custom }

abbrev pub execute : ExecuteGoal ℕ
execute = record {
  trajectory = trajectory;
  path_tolerance = [];
  goal_tolerance = [];
  goal_time_tolerance = record { sec = pos 1; nanosec = 0 };
  control_mode = 0;
  preemption = 1;
  gains = no_gains;
  sender_id = "client";
  token = 77;
  speed_scale = 500;
}

-- No contact stop.
abbrev pub clear_of_contact : ContactState ℕ
clear_of_contact = record {
  enabled = true;
  profile = default_profile;
  status = record {
    phase = armed;
    detection = enforce;
    theta = [];
    r = [];
    has_trip = false;
    last = record { joint = pos 0; r = []; theta = []; q = []; qd = [] };
    would_trips = 0;
    bad_samples = 0;
  };
}

-- An arbiter that grants every request it is not stopped for, over its own status.
abbrev pub arbiter : ArbitrationSink ArbitrationStatus
arbiter = record {
  grant = λ s owner t. (
    record s { owned = true; owner_id = owner; generation = s.generation + 1 },
    record { accepted = true; token = 42; generation = s.generation + 1; message = "" },
  );
  revoke = λ s. record s { owned = false; owner_id = "" };
  estop = λ s. record s { estopped = true; owned = false; owner_id = "" };
  estop_clear = λ s. record s { estopped = false };
  status = λ s. s;
}

pub arbiter-IsStoppable : IsStoppable arbiter
arbiter-IsStoppable = record {
  estop_stops = λ s. refl;
  clear_lifts = λ s. refl;
  grant_keeps = λ s owner t. refl;
  revoke_keeps = λ s. refl;
}

abbrev pub unowned : ArbitrationStatus
unowned = record {
  mode = enforced;
  estopped = false;
  owned = false;
  owner_id = "";
  generation = 0;
  rejected_count = 0;
}
