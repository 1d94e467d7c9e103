-- ===== src/Tests/Startup.antt =====
-- The theorems on the command line and the start, at a simulator run on the defaults. Numbers are
-- written in unary, a negative one with a dash in front.
use Prim.Native.Char.{code}
use kinova_gen3_ros.Common.{
  ◌+◌, ◌*◌, arith, ℕ, zero, suc, ◌≡◌, refl, ap, true, false, List, [], ◌∷◌, ◌++◌, Option, none,
  some, ◌==◌, ℕ_eq, if◌then◌else◌,
}
use kinova_gen3_ros.Common.Text.{String}
use kinova_gen3_ros.Common.Int.{to_int, ℤ, pos, negsuc}
use kinova_gen3_ros.Common.Results.{returns}
use kinova_gen3_ros.Arbitration.{disabled}
use kinova_gen3_ros.Description.Wait.{Awaited, wait_returns}
use kinova_gen3_ros.Description.{
  Spin, await_model, wait_for_robot_description, gripper_joint, joint_state_names,
}
use kinova_gen3_ros.Contact.Params.{
  declare_contact_params, declare_detection, declare_gain, declare_debounce, declare_profiles,
  check_profiles, check_named, check_thresholds, declare_floating, declare_vec,
  require_non_negative,
}
use kinova_gen3_ros.Speed.{start_scale}
use kinova_gen3_ros.Bringup.{Options, Numerals, continues, exits, parse_args, defaults, flag_of}
use kinova_gen3_ros.Bringup.CommandLine.{AllUnknown, command_line, command_line_read_back}
use kinova_gen3_ros.Bringup.Startup.{
  Environment, Drive, sim, main, drive, fetch_model, load_model, choose_transport, load_contact,
  choose_mode, load_scale, check_stop, speed_cap_of, attach_contact,
}
use kinova_gen3_ros.Tests.{thousandths, arm_names}
use kinova_gen3_ros.Tests.Devices.{node, contact_core, default_config}
use kinova_gen3_ros.Tests.Links.{speed_sink}

unary : ℕ → String
unary zero = ""
unary (suc n) = String.◌∷◌ "1" (unary n)

abbrev pub count_chars : String → ℕ
count_chars String.[] = 0
count_chars (String.◌∷◌ c s) = suc (count_chars s)

count_chars-unary : (n : ℕ) → count_chars (unary n) ≡ n
unfolding unary
count_chars-unary zero = refl
count_chars-unary (suc n) = ap suc (count_chars-unary n)

print_int : ℤ → String
print_int (pos n) = String.◌∷◌ "+" (unary n)
print_int (negsuc n) = String.◌∷◌ "-" (unary n)

abbrev pub signed : ℕ → ℕ → ℤ
signed sign n = if sign == b'-' then negsuc n else pos n

abbrev pub read_int : String → Option ℤ
read_int String.[] = none
read_int (String.◌∷◌ c s) = some (signed (code c) (count_chars s))

read_int-print_int : (n : ℤ) → read_int (print_int n) ≡ some n
unfolding print_int
read_int-print_int (pos n) = ap (λ k. some (pos k)) (count_chars-unary n)
read_int-print_int (negsuc n) = ap (λ k. some (negsuc k)) (count_chars-unary n)

abbrev pub numerals : Numerals ℕ
numerals = record { stoi = read_int; stod = λ s. some (count_chars s) }

abbrev all_set : Options ℕ
all_set = record {
  ip = "--sim";
  ee_frame = "tool";
  use_sim = true;
  cpu = pos 3;
  prio = pos 2;
  rate = 5;
  max_ref_speed = 1;
  rt_csv = "rt.csv";
}

abbrev ros_args : List String
ros_args = "--ros-args" ∷ "-p" ∷ []

ros_args_unknown : AllUnknown ros_args
unfolding flag_of
ros_args_unknown = (refl, (refl, tt))

command_line_read_back_example :
    parse_args numerals (command_line print_int unary all_set ros_args) ≡ continues all_set
command_line_read_back_example =
    command_line_read_back print_int unary numerals (λ n small. read_int-print_int n)
      (λ x. ap some (count_chars-unary x)) all_set (omega arith) (omega arith) ros_args
      ros_args_unknown

abbrev pub environment : Environment ℕ ℕ
environment = record {
  numerals = numerals;
  description = some "<robot/>";
  ok_after_wait = true;
  dynamics = λ xml frame. returns arm_names;
  urdf = record { init_string = λ xml. true; get_joint = λ xml name. true };
  has_kortex = false;
  node = node;
  contact_core = contact_core;
  attach = λ monitor floating. returns tt;
  transport = returns tt;
  backend = returns tt;
  supervisor = returns tt;
  speed_sink = speed_sink;
  core = 0;
  stop_in_setup = false;
  link_run = returns tt;
}

abbrev simulated : Drive ℕ ℕ
simulated =
    drive environment (record (defaults numerals) { use_sim = true }) "<robot/>"
      (arm_names ++ (gripper_joint ∷ [])) sim default_config disabled true
      (record { value = 1000; core = 1000 })

simulated_driven : main environment ("--sim" ∷ []) ≡ continues simulated
unfolding main parse_args fetch_model load_model joint_state_names choose_transport load_contact
    declare_contact_params choose_mode load_scale start_scale check_stop declare_detection
    declare_gain declare_debounce declare_profiles check_profiles check_named check_thresholds
    declare_floating declare_vec require_non_negative to_int speed_cap_of attach_contact
simulated_driven = refl

arm_refused : main environment ("--ip" ∷ "10.0.0.1" ∷ []) ≡ exits 2
unfolding main parse_args fetch_model load_model joint_state_names choose_transport
arm_refused = refl

-- A model that comes in the third spin of a wait of 30 s.
abbrev third_spin : ℕ → Spin
third_spin i = record {
  ok = true;
  now_ms = 1000 + 50 * i;
  delivered = if i == 2 then some "<robot/>" else none;
}

wait_returns_example :
    (out : Option String) × (wait_for_robot_description 601 1000 30000 third_spin ≡ some out)
    × Awaited third_spin 31000 out
wait_returns_example = wait_returns third_spin 601 1000 30000 600 (omega arith) (omega arith)

third_spin_returns : wait_for_robot_description 4 1000 30000 third_spin ≡ some (some "<robot/>")
unfolding wait_for_robot_description await_model
third_spin_returns = refl
