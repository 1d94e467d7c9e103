-- ===== src/Externals.antt =====
-- What the shell takes from code outside the repository: C++ doubles, the message packages'
-- constants, and the driver's checks and default values. They are parameters of the model, one
-- record for each package, with the documented behaviour that some theorems need beside it.
use kinova_gen3_ros.Common.{ℕ, ◌≤◌, ◌≡◌, ◌≢◌, Bool, true, not, List, [], length, String}
use kinova_gen3_ros.Common.Int.{ℤ}
use kinova_gen3_ros.Driver.{
  num_joints, ControlModeKind, SetpointKind, session_default, CustomGains, ImpedanceGains,
  TrajectoryGoal,
}
use kinova_gen3_ros.Messages.{JointTrajectoryPoint}

-- The operations of `double` (and `float`) that the code uses, and how it prints one.
pub record Double {ℓ} (W : Type ℓ) : Type ℓ where
  pub decimal : ℕ → ℕ → W  -- `decimal m k` is the literal for m / 10^k
  pub neg : W → W
  pub add : W → W → W
  pub sub : W → W → W
  pub mul : W → W → W
  pub sqrt : W → W
  pub abs : W → W
  pub nan : W  -- quiet_NaN()
  pub of_ℤ : ℤ → W  -- static_cast<double> of an integer
  pub to_float : W → W  -- static_cast<float>
  pub lt : W → W → Bool
  pub le : W → W → Bool
  pub is_finite : W → Bool
  pub to_text : W → String  -- std::to_string
  pub show_g : W → String  -- printf "%g"
  pub show_int : W → String  -- std::to_string(static_cast<int>(…))
  pub show_2f : W → String  -- printf "%.2f"
  pub fit : ℕ → String → String  -- what snprintf leaves of a text in a buffer of that many bytes

-- Away from NaN and the infinities the two comparisons are one order.
pub record IsOrdered {ℓ} (W : Type ℓ) ⦃d : Double W⦄ : Type ℓ where
  pub lt-not-le :
      (x y : W) → d.is_finite x ≡ true → d.is_finite y ≡ true → d.lt x y ≡ not (d.le y x)
  pub decimal_finite : (m k : ℕ) → d.is_finite (d.decimal m k) ≡ true

pub record GainsCheck : Type 0 where
  pub ok : Bool
  pub message : String

-- kinova_lowlevel, and the constants of rammp_arm_interfaces. `PROFILE_SESSION_DEFAULT` is 0 and
-- `PROFILE_CUSTOM` is 4, as this repository's own refusal message says.
pub record Packages (W : Type 0) : Type 0 where
  pub profile_soft : ℕ
  pub profile_medium : ℕ
  pub profile_stiff : ℕ
  pub hold_none : ℕ
  pub hold_level : ℕ
  pub hold_fixed : ℕ
  pub planner_hold_none : ℕ
  pub planner_hold_level : ℕ
  pub planner_hold_fixed : ℕ
  pub validate_custom : CustomGains W → GainsCheck
  pub pair_supported : SetpointKind → ControlModeKind → Bool
  pub min_speed_scale : W
  pub blank_gains : ImpedanceGains W  -- ImpedanceGains{}
  pub blank_rates : List W  -- qd and qdd of JointWaypoint{q, t_s}
  pub blank_goal : TrajectoryGoal W  -- TrajectoryGoal{}
  pub blank_point : JointTrajectoryPoint W  -- JointTrajectoryPoint{}

abbrev pub profile_session_default : ℕ
profile_session_default = 0

abbrev pub profile_custom : ℕ
profile_custom = 4

-- What the packages document of these.
pub record IsDocumented {W : Type 0} (p : Packages W) : Type 0 where
  pub blank_profile : p.blank_gains.profile ≡ session_default
  pub profiles_differ :
      (p.profile_soft ≢ p.profile_medium)
      × (p.profile_soft ≢ p.profile_stiff)
      × (p.profile_medium ≢ p.profile_stiff)
  pub soft_range : (1 ≤ p.profile_soft) × (p.profile_soft ≤ 3)
  pub medium_range : (1 ≤ p.profile_medium) × (p.profile_medium ≤ 3)
  pub stiff_range : (1 ≤ p.profile_stiff) × (p.profile_stiff ≤ 3)
  pub holds_differ :
      (p.hold_none ≢ p.hold_level) × (p.hold_none ≢ p.hold_fixed) × (p.hold_level ≢ p.hold_fixed)
  pub blank_points : (p.blank_goal).trajectory.points ≡ []
  pub rates_sized : length p.blank_rates ≡ num_joints
