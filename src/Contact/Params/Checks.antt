-- ===== src/Contact/Params/Checks.antt =====
-- What holds of every configuration that declare_contact_params returns.
use kinova_gen3_ros.Common.{
  ℕ, ◌+◌, ◌^◌, ◌<◌, ◌≡◌, refl, sym, ◌↔◌, ◌⊎◌, inl, inr, true, false, ◌&&◌, List, [], ◌∷◌, length,
  every, ℕ_eq, string_eq, arith,
}
use mathlib.Core.Path.{subst}
use text.Mathlib.TextEquality.{eq_iff}
use kinova_gen3_ros.Common.Text.{String}
use kinova_gen3_ros.Common.Int.{to_int, ℤ, pos, negsuc}
use kinova_gen3_ros.Common.Results.{returns, Result-cases, after_step}
use kinova_gen3_ros.Driver.{num_joints, observe}
use kinova_gen3_ros.Externals.{Double}
use kinova_gen3_ros.Contact.Params.{
  ParameterNode, ContactCore, ContactNodeConfig, ContactProfiles, FloatParams, config, declare_vec,
  require_non_negative, declare_detection, declare_gain, declare_debounce, check_thresholds,
  check_named, check_profiles, declare_profiles, declare_floating, declare_contact_params,
}

module _ {W : Type 0} ⦃d : Double W⦄ (node : ParameterNode W) (core : ContactCore W) where
  declare_vec-sized :
      (name : String) (default v : List W)
      → declare_vec node core name default ≡ returns v
      → length v ≡ num_joints
  unfolding declare_vec
  declare_vec-sized name default v e = elim (Result-cases (node.declare_numbers name default)) [
    | inl (u, got) ↦ ground (arith, e, got)
    | inr (why, bad) ↦ absurd (ground (arith, e, bad))
  ]

  declare_gain-positive :
      (g : W)
      → declare_gain node core ≡ returns g
      → (d.is_finite g ≡ true) × (d.lt (d.decimal 0 0) g ≡ true)
  unfolding declare_gain
  declare_gain-positive g e =
      elim (Result-cases (node.declare_number "contact_gain" (d.decimal 25 0))) [
        | inl (u, got) ↦ ground (arith, e, got)
        | inr (why, bad) ↦ absurd (ground (arith, e, bad))
      ]

  declare_detection-known :
      (s : String)
      → declare_detection node core ≡ returns s
      → (s ≡ "enforce") ⊎ (s ≡ "observe") ⊎ (s ≡ "off")
  unfolding declare_detection
  declare_detection-known s e =
      elim (Result-cases (node.declare_text "contact_detection" "enforce")) [
        | inl (u, got) ↦
            ground (arith, e, got, eq_iff u "enforce", eq_iff u "observe", eq_iff u "off")
        | inr (why, bad) ↦ absurd (ground (arith, e, bad))
      ]

  declare_debounce_lem :
      (c : ℤ)
      → declare_debounce node core ≡ returns c
      → (n : ℕ) × (node.declare_integer "contact_debounce_cycles" (pos 5) ≡ returns (pos n))
        × (0 < n)
        × (c ≡ to_int n)
  unfolding declare_debounce
  declare_debounce_lem c e =
      elim (Result-cases (node.declare_integer "contact_debounce_cycles" (pos 5))) [
        | inl (pos n, got) ↦
            let checked : (0 < n) × (c ≡ to_int n) = ground (arith, e, got) in
            (n, got, checked.0, checked.1)
        | inl (negsuc n, got) ↦ absurd (ground (arith, e, got))
        | inr (why, bad) ↦ absurd (ground (arith, e, bad))
      ]

  -- Every entry is finite and not negative.
  abbrev pub IsNonNegative : List W → Type 0
  IsNonNegative v = every (λ x. d.is_finite x && d.le (d.decimal 0 0) x) v ≡ true

  require_non_negative-lem :
      (name : String) (i : ℕ) (v : List W)
      → require_non_negative node core name i v ≡ returns tt
      → IsNonNegative v
  unfolding require_non_negative
  require_non_negative-lem name i [] e = refl
  require_non_negative-lem name i (x ∷ v) e =
      ground (arith, e, require_non_negative-lem name (i + 1) v)

  abbrev pub IsProfiles : ContactProfiles W → Type 0
  IsProfiles p =
      (length p.sensitive ≡ num_joints)
      × (length p.normal ≡ num_joints)
      × (length p.loose ≡ num_joints)
      × (length p.ceiling ≡ num_joints)
      × ((core.validate_contact_thresholds p.ceiling p.ceiling).ok ≡ true)
      × ((core.validate_contact_thresholds p.sensitive p.ceiling).ok ≡ true)
      × ((core.validate_contact_thresholds p.normal p.ceiling).ok ≡ true)
      × ((core.validate_contact_thresholds p.loose p.ceiling).ok ≡ true)

  check_profiles-lem :
      (q p : ContactProfiles W)
      → check_profiles node core q ≡ returns p
      → (p ≡ q)
        × ((core.validate_contact_thresholds q.ceiling q.ceiling).ok ≡ true)
        × ((core.validate_contact_thresholds q.sensitive q.ceiling).ok ≡ true)
        × ((core.validate_contact_thresholds q.normal q.ceiling).ok ≡ true)
        × ((core.validate_contact_thresholds q.loose q.ceiling).ok ≡ true)
  unfolding check_profiles check_named check_thresholds
  check_profiles-lem q p e = ground (arith, e)

  declare_profiles-IsProfiles :
      (p : ContactProfiles W) → declare_profiles node core ≡ returns p → IsProfiles p
  unfolding declare_profiles
  declare_profiles-IsProfiles p e =
      after_step (declare_vec node core "contact_thresholds_sensitive" _) _ e λ s got_s e₁.
        after_step (declare_vec node core "contact_thresholds_default" _) _ e₁ λ n got_n e₂.
          after_step (declare_vec node core "contact_thresholds_loose" _) _ e₂ λ l got_l e₃.
            after_step (declare_vec node core "contact_thresholds_ceiling" _) _ e₃ λ c got_c e₄.
              ground (
                arith,
                declare_vec-sized _ _ s got_s,
                declare_vec-sized _ _ n got_n,
                declare_vec-sized _ _ l got_l,
                declare_vec-sized _ _ c got_c,
                check_profiles-lem _ p e₄,
              )

  abbrev pub IsFloating : FloatParams W → Type 0
  IsFloating f =
      (length f.damping ≡ num_joints)
      × IsNonNegative f.damping
      × (length f.spring ≡ num_joints)
      × IsNonNegative f.spring

  declare_floating-IsFloating :
      (f : FloatParams W) → declare_floating node core ≡ returns f → IsFloating f
  unfolding declare_floating
  declare_floating-IsFloating f e =
      after_step (declare_vec node core "float_damping" _) _ e λ u got_u e₁.
        after_step (require_non_negative node core "float_damping" 0 u) _ e₁ λ _ test_u e₂.
          after_step (declare_vec node core "float_spring" _) _ e₂ λ v got_v e₃.
            after_step (require_non_negative node core "float_spring" 0 v) _ e₃ λ _ test_v e₄.
              after_step (node.declare_number "float_drag_band_deg" _) _ e₄ λ band got_band e₅.
                ground (
                  arith,
                  declare_vec-sized _ _ u got_u,
                  declare_vec-sized _ _ v got_v,
                  require_non_negative-lem _ _ u test_u,
                  require_non_negative-lem _ _ v test_v,
                  e₅,
                )

  -- A configuration that the detector can run on.
  pub record IsSound (c : ContactNodeConfig W) : Type 0 where
    pub detection_known :
        (c.detection ≡ "enforce") ⊎ (c.detection ≡ "observe") ⊎ (c.detection ≡ "off")
    pub observes : (c.monitor.detection ≡ observe) ↔ (c.detection ≡ "observe")
    pub gain_positive :
        (d.is_finite c.monitor.gain ≡ true) × (d.lt (d.decimal 0 0) c.monitor.gain ≡ true)
    pub profiles : IsProfiles c.profiles
    pub monitor :
        (c.monitor.initial_theta ≡ c.profiles.normal) × (c.monitor.ceiling ≡ c.profiles.ceiling)
    pub floating : IsFloating c.floating
    pub debounce :
        (n : ℕ) × (node.declare_integer "contact_debounce_cycles" (pos 5) ≡ returns (pos n))
        × (0 < n)
        × ((c.monitor.debounce_cycles ≡ pos n) ↔ (n < 2 ^ 31))

  to_int_iff : (n : ℕ) → (to_int n ≡ pos n) ↔ (n < 2 ^ 31)
  unfolding to_int
  to_int_iff n = ground arith

  -- Every startup configuration that is accepted is sound (IsSound): a known detection string, which
  -- the monitor follows; a positive finite gain; four vectors of seven thresholds which core accepts
  -- under the ceiling, the monitor's ceiling and start among them; seven finite damping and spring
  -- values, none negative; and a positive debounce parameter, which is the monitor's count exactly
  -- when it is below 2^31 (the cast to int changes any larger one).
  pub accepted_config-IsSound :
      (c : ContactNodeConfig W) → declare_contact_params node core ≡ returns c → IsSound c
  unfolding declare_contact_params
  accepted_config-IsSound c e = after_step (declare_detection node core) _ e λ s got_s e₁.
      after_step (declare_gain node core) _ e₁ λ g got_g e₂.
        after_step (declare_debounce node core) _ e₂ λ n got_n e₃.
          after_step (declare_profiles node core) _ e₃ λ p got_p e₄.
            after_step (declare_floating node core) _ e₄ λ f got_f e₅.
              after_step (node.declare_flag "contact_debug_topic" false) _ e₅ λ t got_t e₆.
                let same : config s g n p f t ≡ c = cc e₆ in
                subst IsSound same (record {
                  detection_known = declare_detection-known s got_s;
                  observes = ground (arith, eq_iff s "observe");
                  gain_positive = declare_gain-positive g got_g;
                  profiles = declare_profiles-IsProfiles p got_p;
                  monitor = (refl, refl);
                  floating = declare_floating-IsFloating f got_f;
                  debounce =
                      let (m, declared, positive, cast) = declare_debounce_lem n got_n in
                      (
                        m,
                        declared,
                        positive,
                        subst (λ x. (x ≡ pos m) ↔ (m < 2 ^ 31)) (sym cast) (to_int_iff m),
                      );
                })
