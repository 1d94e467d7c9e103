-- ===== src/Contact/Page.antt =====
-- contact_diagnostics in contact_server.cpp, with its helpers: the "Contact detection" page.
use kinova_gen3_ros.Common.{
  ℕ, ◌+◌, Bool, true, false, not, List, [], ◌∷◌, Option, none, some, get_elem?, ltb, ℕ_eq,
  string_eq, if◌then◌else◌,
}
use kinova_gen3_ros.Common.Text.{String, to_string}
use kinova_gen3_ros.Common.Text.{◌++◌ as ◌<>◌}
use kinova_gen3_ros.Common.Int.{ℤ, pos, negsuc, succ}
use kinova_gen3_ros.Driver.{
  num_joints, ContactPhase, settling, armed, latched, ContactDetection, enforce, observe,
  ContactProfile, default_profile, sensitive, loose, custom_profile, ContactStatus, ContactState,
}
use kinova_gen3_ros.Diagnostics.{Page, ok, warn, error, Value, text, count, integer}
use kinova_gen3_ros.Externals.{Double}

abbrev pub phase_name : ContactPhase → String
phase_name settling = "settling"
phase_name armed = "armed"
phase_name latched = "latched"

-- to_string
abbrev pub profile_name : ContactProfile → String
profile_name sensitive = "sensitive"
profile_name default_profile = "default"
profile_name loose = "loose"
profile_name custom_profile = "custom"

-- `s.status.has_trip && j >= 0 && j < kinova::kNumJoints`: the joint of a trip that names one.
joint_below : ℤ → Option ℕ
joint_below (pos j) = if ltb j num_joints then some j else none
joint_below (negsuc j) = none

module _ {W : Type 0} ⦃d : Double W⦄ where
  join_from : Bool → List W → String
  join_from started [] = ""
  join_from started (x ∷ xs) =
      d.fit 32 ((if started then ", " else "") <> d.show_2f x) <> join_from true xs

  unfoldable pub join : List W → String
  unfolding join_from
  join v = "[" <> (join_from false v <> "]")

module _ {W : Type 0} where
  unfoldable pub trip_joint : ContactStatus W → Option ℕ
  unfolding joint_below
  trip_joint s = if s.has_trip then joint_below s.last.joint else none

abbrev pub is_observe : ContactDetection → Bool
is_observe observe = true
is_observe enforce = false

module _ {W : Type 0} ⦃d : Double W⦄ where
  entry : List W → ℕ → W
  entry v j = elim (get_elem? v j) [ none ↦ d.nan | some x ↦ x ]

  observe_message : ContactStatus W → Option ℕ → String
  observe_message s none =
      "observe mode: not stopping the arm; " <> (to_string s.would_trips <> " would-be trips")
  observe_message s (some j) =
      "observe mode: not stopping the arm; "
      <> (to_string s.would_trips
          <> (" would-be trips" <> (", last on joint " <> to_string (j + 1))))

  stop_message : ContactState W → Option ℕ → String
  unfolding entry
  stop_message s none =
      "stopped on contact (profile " <> (profile_name s.profile <> "); call /clear_faults")
  stop_message s (some j) =
      "stopped on contact: joint "
      <> (to_string (j + 1)
          <> (", |r| = "
              <> (d.show_2f (d.abs (entry s.status.last.r j))
                  <> (" N·m > θ = "
                      <> (d.show_2f (entry s.status.last.theta j)
                          <> (" N·m at the trip (profile now "
                              <> (profile_name s.profile <> "); call /clear_faults")))))))

  trip_values : ContactStatus W → List (String × Value W)
  unfolding join
  trip_values s =
      if s.has_trip
      then ("last_trip_joint", integer (succ s.last.joint))
        ∷ ("last_trip_residual_nm", text (join s.last.r))
        ∷ ("last_trip_thresholds_nm", text (join s.last.theta))
        ∷ ("last_trip_q_rad", text (join s.last.q))
        ∷ ("last_trip_qd_rad_s", text (join s.last.qd))
        ∷ []
      else []

  contact_values : ContactState W → String → List (String × Value W)
  unfolding join trip_values
  contact_values s detection =
      ("detection", text detection)
      ∷ ("phase", text (phase_name s.status.phase))
      ∷ ("profile", text (profile_name s.profile))
      ∷ ("residual_nm", text (join s.status.r))
      ∷ ("thresholds_nm", text (join s.status.theta))
      ∷ ("would_trips", count s.status.would_trips)
      ∷ ("bad_samples", count s.status.bad_samples)
      ∷ trip_values s.status

  -- The summary of an enforcing detector, by its phase.
  unfoldable pub phase_page : ContactState W → ContactPhase → List (String × Value W) → Page W
  unfolding stop_message
  phase_page s settling values = record { level = warn; message = "settling"; values = values }
  phase_page s armed values = record {
    level = ok;
    message = "armed (profile " <> (profile_name s.profile <> ")");
    values = values;
  }
  phase_page s latched values = record {
    level = error;
    message = d.fit 160 (stop_message s (trip_joint s.status));
    values = values;
  }

  unfoldable pub contact_diagnostics : ContactState W → String → Page W
  unfolding contact_values observe_message phase_page
  contact_diagnostics s detection =
      let values = contact_values s detection in
      if not s.enabled
      then record {
        level = warn;
        message = "DISABLED (contact_detection=" <> (detection <> ")");
        values = values;
      }
      else if is_observe s.status.detection
      then record {
        level = warn;
        message = observe_message s.status (trip_joint s.status);
        values = values;
      }
      else phase_page s s.status.phase values
