-- ===== src/Bringup.antt =====
-- bringup_node.cpp: the command line, and the decisions of main up to its exit status.
pub mod CommandLine
pub mod Startup
pub mod Run
pub mod Wiring
use kinova_gen3_ros.Common.{
  ℕ, Bool, true, false, List, [], ◌∷◌, Option, none, some, ◌==◌, string_eq, if◌then◌else◌,
}
use kinova_gen3_ros.Common.Text.{String}
use kinova_gen3_ros.Common.Int.{ℤ, pos, negsuc}
use kinova_gen3_ros.Externals.{Double}

pub record Options (W : Type 0) : Type 0 where
  pub ip : String
  pub ee_frame : String
  pub use_sim : Bool
  pub cpu : ℤ
  pub prio : ℤ
  pub rate : W
  pub max_ref_speed : W
  pub rt_csv : String

-- std::stoi and std::stod: `none` when they throw, as stoi does of a number that is no int.
pub record Numerals (W : Type 0) : Type 0 where
  pub stoi : String → Option ℤ
  pub stod : String → Option W

-- How a part of main ends: it goes on with a value, returns an exit status, throws an exception that
-- nothing catches, or reads past the last argument.
pub data Step {ℓ} (A : Type ℓ) : Type ℓ where
  continues : A → Step A
  exits : ℕ → Step A
  uncaught : Step A
  undefined : Step A

-- The flags that take a value.
pub data Valued : Type 0 where
  ip_flag cpu_flag ee_frame_flag rt_csv_flag rt_priority_flag rate_flag max_ref_speed_flag : Valued

pub data Flag : Type 0 where
  sim_flag : Flag
  valued : Valued → Flag
  urdf_flag : Flag
  unknown : Flag

unfoldable pub flag_of : String → Flag
flag_of a =
    if a == "--sim"
    then sim_flag
    else if a == "--ip"
    then valued ip_flag
    else if a == "--cpu"
    then valued cpu_flag
    else if a == "--ee-frame"
    then valued ee_frame_flag
    else if a == "--rt-csv"
    then valued rt_csv_flag
    else if a == "--rt-priority"
    then valued rt_priority_flag
    else if a == "--rate"
    then valued rate_flag
    else if a == "--max-ref-speed"
    then valued max_ref_speed_flag
    else if a == "--urdf"
    then urdf_flag
    else unknown

module _ {W : Type 0} where
  abbrev pub with_cpu : Options W → Option ℤ → Option (Options W)
  with_cpu o none = none
  with_cpu o (some n) = some (record o { cpu = n })

  abbrev pub with_prio : Options W → Option ℤ → Option (Options W)
  with_prio o none = none
  with_prio o (some n) = some (record o { prio = n })

  abbrev pub with_rate : Options W → Option W → Option (Options W)
  with_rate o none = none
  with_rate o (some x) = some (record o { rate = x })

  abbrev pub with_max_ref_speed : Options W → Option W → Option (Options W)
  with_max_ref_speed o none = none
  with_max_ref_speed o (some x) = some (record o { max_ref_speed = x })

module _ {W : Type 0} (numerals : Numerals W) where
  -- The assignment that a flag makes with its value; `none` when its conversion throws.
  abbrev pub set_valued : Valued → String → Options W → Option (Options W)
  set_valued ip_flag v o = some (record o { ip = v })
  set_valued cpu_flag v o = with_cpu o (numerals.stoi v)
  set_valued ee_frame_flag v o = some (record o { ee_frame = v })
  set_valued rt_csv_flag v o = some (record o { rt_csv = v })
  set_valued rt_priority_flag v o = with_prio o (numerals.stoi v)
  set_valued rate_flag v o = with_rate o (numerals.stod v)
  set_valued max_ref_speed_flag v o = with_max_ref_speed o (numerals.stod v)

  -- The loop over the arguments. A flag waits for its value, which `nxt` takes whatever it is.
  unfoldable pub parse_loop : List String → Option Valued → Options W → Step (Options W)
  parse_loop [] none o = continues o
  parse_loop [] (some f) o = undefined
  parse_loop (v ∷ args) (some f) o = elim (set_valued f v o) [
    | none ↦ uncaught
    | some o' ↦ parse_loop args none o'
  ]
  parse_loop (a ∷ args) none o = elim (flag_of a) [
    | sim_flag ↦ parse_loop args none (record o { use_sim = true })
    | valued f ↦ parse_loop args (some f) o
    | urdf_flag ↦ exits 2
    | unknown ↦ parse_loop args none o
  ]

module _ {W : Type 0} ⦃d : Double W⦄ (numerals : Numerals W) where
  abbrev pub defaults : Options W
  defaults = record {
    ip = "";
    ee_frame = "arm_end_effector_link";
    use_sim = false;
    cpu = negsuc 0;
    prio = pos 80;
    rate = d.decimal 1000 0;
    max_ref_speed = d.decimal 0 0;
    rt_csv = "";
  }

  -- The arguments after the program's name.
  unfoldable pub parse_args : List String → Step (Options W)
  unfolding parse_loop flag_of
  parse_args args = parse_loop numerals args none defaults
