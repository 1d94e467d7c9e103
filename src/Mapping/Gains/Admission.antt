-- ===== src/Mapping/Gains/Admission.antt =====
-- message_mapping.cpp: what mode_gains_rejection lets through, and how that is mapped.
use kinova_gen3_ros.Common.{ℕ, ◌≤◌, ◌≡◌, ◌↔◌, true, none, arith}
use kinova_gen3_ros.Messages.{ImpedanceGainsMsg}
use kinova_gen3_ros.Externals.{Packages, IsDocumented}
use kinova_gen3_ros.Mapping.Gains.{to_control_mode, to_impedance_gains, mode_gains_rejection}

mode-injective : (m n : ℕ) → m ≤ 1 → n ≤ 1 → to_control_mode m ≡ to_control_mode n → m ≡ n
unfolding to_control_mode
mode-injective m n h i e = ground arith

module _ {W : Type 0} ⦃k : Packages W⦄ where
  -- The pairs that the driver accepts: position with the session default, or impedance with a
  -- named profile, or with custom gains that the driver's own check passes.
  pub data Acceptable (mode : ℕ) (g : ImpedanceGainsMsg W) : Type 0 where
    stiffly : mode ≡ 0 → g.profile ≡ 0 → Acceptable mode g
    named : mode ≡ 1 → g.profile ≤ 3 → Acceptable mode g
    exactly :
        mode ≡ 1
        → g.profile ≡ 4
        → (k.validate_custom (to_impedance_gains g).custom).ok ≡ true
        → Acceptable mode g

  accepted→Acceptable :
      (mode : ℕ) (g : ImpedanceGainsMsg W) → mode_gains_rejection mode g ≡ none → Acceptable mode g
  unfolding mode_gains_rejection
  accepted→Acceptable mode g h = grind (arith, stiffly, named, exactly)

  Acceptable→accepted :
      (mode : ℕ) (g : ImpedanceGainsMsg W) → Acceptable mode g → mode_gains_rejection mode g ≡ none
  unfolding mode_gains_rejection
  Acceptable→accepted mode g (stiffly m p) = ground arith
  Acceptable→accepted mode g (named m p) = ground arith
  Acceptable→accepted mode g (exactly m p c) = ground arith

  -- A control-mode byte and gains are accepted exactly when they are position (0) with the session
  -- default (0), or impedance (1) with a profile byte of at most 3, or impedance with custom gains
  -- (4) that the driver's check of the mapped gains accepts.
  pub mode_gains_accepted_iff :
      (mode : ℕ) (g : ImpedanceGainsMsg W)
      → (mode_gains_rejection mode g ≡ none) ↔ Acceptable mode g
  mode_gains_accepted_iff mode g = (accepted→Acceptable mode g, Acceptable→accepted mode g)

  accepted-le : (m : ℕ) (g : ImpedanceGainsMsg W) → Acceptable m g → (m ≤ 1) × (g.profile ≤ 4)
  accepted-le m g (stiffly a b) = omega arith
  accepted-le m g (named a b) = omega arith
  accepted-le m g (exactly a b c) = omega arith

  profile-injective :
      IsDocumented k
      → (g h : ImpedanceGainsMsg W) → g.profile ≤ 4
      → h.profile ≤ 4
      → (to_impedance_gains g).profile ≡ (to_impedance_gains h).profile
      → g.profile ≡ h.profile
  unfolding to_impedance_gains
  profile-injective doc g h a b e = ground arith

  -- With the packages' constants as documented, two accepted pairs whose mapped mode and profile
  -- agree had the same two bytes: no byte is silently read as another.
  pub accepted_bytes_injective :
      IsDocumented k
      → (m n : ℕ) (g h : ImpedanceGainsMsg W) → mode_gains_rejection m g ≡ none
      → mode_gains_rejection n h ≡ none
      → to_control_mode m ≡ to_control_mode n
      → (to_impedance_gains g).profile ≡ (to_impedance_gains h).profile
      → (m ≡ n) × (g.profile ≡ h.profile)
  accepted_bytes_injective doc m n g h a b e f =
      let (m1, g4) = accepted-le m g (accepted→Acceptable m g a) in
      let (n1, h4) = accepted-le n h (accepted→Acceptable n h b) in
      (mode-injective m n m1 n1 e, profile-injective doc g h g4 h4 f)
