-- ===== src/Contact/Params.antt =====
-- contact_params.cpp: the detector's startup configuration, from the node's parameters. What rclcpp
-- gives for a declared parameter (its override, or the default) is a parameter of the model, which
-- may throw on an override of another type. An exception is a value of `Result`.
pub mod Checks
use kinova_gen3_ros.Common.{
  ℕ, suc, ◌+◌, ◌-◌, ◌%◌, ◌^◌, Bool, true, false, ◌&&◌, ◌||◌, not, List, [], ◌∷◌, map, length, ltb,
  leb, ◌==◌, ℕ_eq, string_eq, if◌then◌else◌,
}
use kinova_gen3_ros.Common.Text.{String, ◌++◌, to_string}
use kinova_gen3_ros.Common.Int.{to_int, ℤ, pos, negsuc, print_ℤ}
use kinova_gen3_ros.Common.Results.{Result, returns, throws, ◌>>=◌, ◌>>◌, require}
use kinova_gen3_ros.Driver.{num_joints, ContactDetection, enforce, observe}
use kinova_gen3_ros.Externals.{Double, GainsCheck}

-- rclcpp's declare_parameter, by the type of the default.
pub record ParameterNode (W : Type 0) : Type 0 where
  pub declare_text : String → String → Result String
  pub declare_number : String → W → Result W
  pub declare_integer : String → ℤ → Result ℤ
  pub declare_numbers : String → List W → Result (List W)
  pub declare_flag : String → Bool → Result Bool

pub record ContactMonitorConfig (W : Type 0) : Type 0 where
  pub detection : ContactDetection
  pub gain : W
  pub debounce_cycles : ℤ
  pub initial_theta : List W
  pub ceiling : List W

pub record ContactProfiles (W : Type 0) : Type 0 where
  pub sensitive : List W
  pub normal : List W
  pub loose : List W
  pub ceiling : List W

pub record FloatParams (W : Type 0) : Type 0 where
  pub damping : List W
  pub spring : List W
  pub drag_band_rad : W

pub record ContactNodeConfig (W : Type 0) : Type 0 where
  pub detection : String
  pub monitor : ContactMonitorConfig W
  pub profiles : ContactProfiles W
  pub floating : FloatParams W
  pub debug_topic : Bool

-- kinova_lowlevel's check of thresholds against a ceiling, its FloatParams{} and kDeg2Rad.
pub record ContactCore (W : Type 0) : Type 0 where
  pub validate_contact_thresholds : List W → List W → GainsCheck
  pub blank_floating : FloatParams W
  pub deg2rad : W

module _ {W : Type 0} where
  -- `c`, once its parts are declared.
  abbrev pub config :
      String → W → ℤ → ContactProfiles W → FloatParams W → Bool → ContactNodeConfig W
  config detection gain debounce profiles floating debug_topic = record {
    detection = detection;
    monitor = record {
      detection = if detection == "observe" then observe else enforce;
      gain = gain;
      debounce_cycles = debounce;
      initial_theta = profiles.normal;
      ceiling = profiles.ceiling;
    };
    profiles = profiles;
    floating = floating;
    debug_topic = debug_topic;
  }

module _ {W : Type 0} ⦃d : Double W⦄ (node : ParameterNode W) (core : ContactCore W) where
  -- The vector is copied into a JointVec, entry by entry.
  unfoldable pub declare_vec : String → List W → Result (List W)
  declare_vec name default = do
    v ← node.declare_numbers name default
    require (length v == num_joints) (
        name
        ++ (" must have exactly "
            ++ (to_string num_joints ++ (" values (joints 1..7), got " ++ to_string (length v)))))
    returns v

  -- The loop of require_non_negative, from joint `i` on.
  unfoldable pub require_non_negative : String → ℕ → List W → Result (Unit {0})
  require_non_negative name i [] = returns tt
  require_non_negative name i (x ∷ v) =
      require (d.is_finite x && d.le (d.decimal 0 0) x) (
        name
        ++ (": joint "
            ++ (to_string (i + 1) ++ (" value " ++ (d.to_text x ++ " must be finite and >= 0")))))
      >> require_non_negative name (i + 1) v

  unfoldable pub declare_detection : Result String
  declare_detection = do
    detection ← node.declare_text "contact_detection" "enforce"
    require (detection == "enforce" || detection == "observe" || detection == "off")
        ("contact_detection must be 'enforce', 'observe' or 'off', got '" ++ (detection ++ "'"))
    returns detection

  unfoldable pub declare_gain : Result W
  declare_gain = do
    gain ← node.declare_number "contact_gain" (d.decimal 25 0)
    require (d.is_finite gain && d.lt (d.decimal 0 0) gain)
        ("contact_gain must be finite and > 0, got " ++ d.to_text gain)
    returns gain

  abbrev pub debounce_refused : ℤ → String
  debounce_refused n = "contact_debounce_cycles must be >= 1, got " ++ print_ℤ n

  -- `debounce < 1`, and the cast of what passes.
  abbrev pub checked_debounce : ℤ → Result ℤ
  checked_debounce (pos n) =
      if ltb n 1 then throws (debounce_refused (pos n)) else returns (to_int n)
  checked_debounce (negsuc n) = throws (debounce_refused (negsuc n))

  unfoldable pub declare_debounce : Result ℤ
  declare_debounce = node.declare_integer "contact_debounce_cycles" (pos 5) >>= checked_debounce

  abbrev pub vec : List ℕ → List W
  vec v = map (λ x. d.decimal x 0) v

  -- `if (!check.ok) throw std::invalid_argument(name + ": " + check.message)`
  unfoldable pub check_thresholds : String → List W → List W → Result (Unit {0})
  check_thresholds name theta ceiling =
      let check = core.validate_contact_thresholds theta ceiling in
      require check.ok (name ++ (": " ++ check.message))

  unfoldable pub check_named : List W → List (String × List W) → Result (Unit {0})
  check_named ceiling [] = returns tt
  check_named ceiling ((name, theta) ∷ named) =
      check_thresholds name theta ceiling >> check_named ceiling named

  -- The ceiling on its own first, then each profile against it.
  unfoldable pub check_profiles : ContactProfiles W → Result (ContactProfiles W)
  unfolding check_thresholds check_named
  check_profiles p = do
    check_thresholds "contact_thresholds_ceiling" p.ceiling p.ceiling
    check_named p.ceiling (
        ("contact_thresholds_sensitive", p.sensitive)
        ∷ ("contact_thresholds_default", p.normal)
        ∷ ("contact_thresholds_loose", p.loose)
        ∷ [])
    returns p

  unfoldable pub declare_profiles : Result (ContactProfiles W)
  declare_profiles = do
    sensitive ← declare_vec "contact_thresholds_sensitive" (vec (8 ∷ 8 ∷ 6 ∷ 6 ∷ 2 ∷ 2 ∷ 2 ∷ []))
    normal ← declare_vec "contact_thresholds_default" (vec (16 ∷ 16 ∷ 12 ∷ 12 ∷ 4 ∷ 4 ∷ 4 ∷ []))
    loose ← declare_vec "contact_thresholds_loose" (vec (24 ∷ 24 ∷ 18 ∷ 18 ∷ 6 ∷ 6 ∷ 6 ∷ []))
    ceiling ← declare_vec "contact_thresholds_ceiling" (vec (30 ∷ 30 ∷ 22 ∷ 22 ∷ 7 ∷ 7 ∷ 7 ∷ []))
    check_profiles
        (record { sensitive = sensitive; normal = normal; loose = loose; ceiling = ceiling })

  unfoldable pub declare_floating : Result (FloatParams W)
  declare_floating = do
    damping ← declare_vec "float_damping" (core.blank_floating).damping
    require_non_negative "float_damping" 0 damping
    spring ← declare_vec "float_spring" (core.blank_floating).spring
    require_non_negative "float_spring" 0 spring
    band_deg ← node.declare_number "float_drag_band_deg" (d.decimal 2 0)
    require (d.is_finite band_deg && d.lt (d.decimal 0 0) band_deg)
        ("float_drag_band_deg must be finite and > 0, got " ++ d.to_text band_deg)
    returns
        (record { damping = damping; spring = spring; drag_band_rad = d.mul band_deg core.deg2rad })

  unfoldable pub declare_contact_params : Result (ContactNodeConfig W)
  declare_contact_params = do
    detection ← declare_detection
    gain ← declare_gain
    debounce ← declare_debounce
    profiles ← declare_profiles
    floating ← declare_floating
    debug_topic ← node.declare_flag "contact_debug_topic" false
    returns (config detection gain debounce profiles floating debug_topic)
