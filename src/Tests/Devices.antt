-- ===== src/Tests/Devices.antt =====
-- The theorems on contact detection and on its latched stop, at concrete inputs.
use kinova_gen3_ros.Common.{
  ℕ, ◌*◌, ◌≡◌, ◌≢◌, ◌↔◌, ◌⊎◌, refl, Bool, true, false, List, [], ◌∷◌, none, replicate, ◌==◌, ℕ_eq,
  string_eq, if◌then◌else◌, arith,
}
use kinova_gen3_ros.Common.Int.{to_int, pos}
use kinova_gen3_ros.Common.Results.{returns}
use kinova_gen3_ros.Driver.{default_profile, custom_profile, armed, latched, enforce, ContactState}
use kinova_gen3_ros.Diagnostics.{ok, error}
use kinova_gen3_ros.Mapping.Limits.{contact_rejection}
use kinova_gen3_ros.Contact as Contact
use kinova_gen3_ros.Contact.{
  SetContactThresholds, ContactThresholdsRequest, ContactThresholdsResult, ContactSink, Blank,
  to_contact_request, is_custom, profile_byte,
}
use kinova_gen3_ros.Contact.Thresholds as Thresholds
use kinova_gen3_ros.Contact.Thresholds.{read_iff_written, set_reports_active, to_message, Sendable}
use kinova_gen3_ros.Contact.Page.{contact_diagnostics}
use kinova_gen3_ros.Contact.Severity.{page_matches_refusal}
use kinova_gen3_ros.Contact.Params.{
  ParameterNode, ContactCore, ContactNodeConfig, config, declare_contact_params, declare_detection,
  declare_gain, declare_debounce, declare_profiles, check_profiles, check_named, check_thresholds,
  declare_floating, declare_vec, require_non_negative,
}
use kinova_gen3_ros.Contact.Params.Checks.{IsSound, accepted_config-IsSound}
use kinova_gen3_ros.Messages.{GripperSetpointMsg}
use kinova_gen3_ros.PlannedMove.{MoveGoal, SinkView}
use kinova_gen3_ros.Backend.{CommandSink}
use kinova_gen3_ros.Gripper.{GripperSink}
use kinova_gen3_ros.Tests.{thousandths, gen3, at_rest, clear_of_contact, no_gains}

-- A custom request, read into a request at rest.
abbrev custom_set : SetContactThresholds ℕ
custom_set = record { profile = 3; custom = replicate 7 5; token = 9 }

abbrev blank_request : ContactThresholdsRequest ℕ
blank_request = record { profile = default_profile; custom = at_rest; token = 0 }

abbrev custom_request : ContactThresholdsRequest ℕ
custom_request = record { profile = custom_profile; custom = replicate 7 5; token = 9 }

read_iff_written_example :
    (to_contact_request custom_set blank_request ≡ returns custom_request) ↔ (
      (to_message custom_request ≡ custom_set)
      × Sendable (is_custom custom_profile) at_rest (replicate 7 5))
read_iff_written_example = read_iff_written custom_set blank_request custom_request refl

read_runs : to_contact_request custom_set blank_request ≡ returns custom_request
unfolding to_contact_request
read_runs = refl

-- A core with two sets of thresholds, which obeys the token 9.
abbrev theta_of : Bool → List ℕ
theta_of strict = if strict then replicate 7 5 else replicate 7 8

abbrev contact_of : Bool → ContactState ℕ
contact_of strict = record clear_of_contact {
  profile = if strict then custom_profile else default_profile;
  status = record (clear_of_contact.status) { theta = theta_of strict };
}

abbrev contact_core_sink : ContactSink ℕ Bool
contact_core_sink = record {
  set_contact_thresholds = λ s r.
      if r.token == 9
      then (
        is_custom r.profile,
        record {
          accepted = true;
          message = "";
          profile = (contact_of (is_custom r.profile)).profile;
          theta = theta_of (is_custom r.profile);
        },
      )
      else (
        s,
        record {
          accepted = false;
          message = "not authorized";
          profile = default_profile;
          theta = [];
        },
      );
  query_contact = contact_of;
}

contact_core_sink-IsHonest : Thresholds.IsHonest contact_core_sink
contact_core_sink-IsHonest = record {
  accepted_active = λ s r e. ground (arith, e);
  refused_kept = λ s r e. ground (arith, e);
  theta_sized = λ s. ground arith;
}

abbrev blank : Blank ℕ
blank = record {
  request = blank_request;
  result = record { accepted = false; message = ""; profile = default_profile; theta = at_rest };
  thresholds = at_rest;
}

set_reports_active_example :
    let after = Contact.on_set contact_core_sink blank custom_set false in
    ((after.1).profile ≡ profile_byte (contact_of after.0).profile)
    × ((after.1).thresholds ≡ (contact_of after.0).status.theta)
    × (((after.1).accepted ≡ true) ⊎ (after.0 ≡ false))
set_reports_active_example =
    set_reports_active contact_core_sink blank contact_core_sink-IsHonest refl refl custom_set false

page_matches_refusal_example :
    (((contact_diagnostics clear_of_contact "enforce").level ≡ error)
      ↔ ((contact_rejection clear_of_contact ≢ none) × (enforce ≡ enforce)))
    × (((contact_diagnostics clear_of_contact "enforce").level ≡ ok)
        ↔ ((true ≡ true) × (enforce ≡ enforce) × (armed ≡ armed)))
page_matches_refusal_example = page_matches_refusal clear_of_contact "enforce"

-- A node without overrides, and a core that accepts all thresholds.
abbrev pub node : ParameterNode ℕ
node = record {
  declare_text = λ name default. returns default;
  declare_number = λ name default. returns default;
  declare_integer = λ name default. returns default;
  declare_numbers = λ name default. returns default;
  declare_flag = λ name default. returns default;
}

abbrev pub contact_core : ContactCore ℕ
contact_core = record {
  validate_contact_thresholds = λ theta ceiling. record { ok = true; message = "" };
  blank_floating = record { damping = at_rest; spring = at_rest; drag_band_rad = 0 };
  deg2rad = 17;
}

abbrev kilo : List ℕ → List ℕ
kilo [] = []
kilo (x ∷ v) = x * 1000 ∷ kilo v

abbrev pub default_config : ContactNodeConfig ℕ
default_config =
    config "enforce" 25000 (pos 5)
      (record {
        sensitive = kilo (8 ∷ 8 ∷ 6 ∷ 6 ∷ 2 ∷ 2 ∷ 2 ∷ []);
        normal = kilo (16 ∷ 16 ∷ 12 ∷ 12 ∷ 4 ∷ 4 ∷ 4 ∷ []);
        loose = kilo (24 ∷ 24 ∷ 18 ∷ 18 ∷ 6 ∷ 6 ∷ 6 ∷ []);
        ceiling = kilo (30 ∷ 30 ∷ 22 ∷ 22 ∷ 7 ∷ 7 ∷ 7 ∷ []);
      })
      (record { damping = at_rest; spring = at_rest; drag_band_rad = 34 }) false

default_config_declared : declare_contact_params node contact_core ≡ returns default_config
unfolding declare_contact_params declare_detection declare_gain declare_debounce declare_profiles
    check_profiles check_named check_thresholds declare_floating declare_vec require_non_negative
    to_int
default_config_declared = refl

accepted_config-IsSound_example : IsSound node contact_core default_config
accepted_config-IsSound_example =
    accepted_config-IsSound node contact_core default_config default_config_declared

-- A stop that is latched, met by a goal, a move and a setpoint.
abbrev stopped : ContactState ℕ
stopped = record clear_of_contact { status = record (clear_of_contact.status) { phase = latched } }

abbrev eager_sink : CommandSink ℕ
eager_sink = record {
  query_contact = stopped;
  trajectory_goal = λ g. true;
  trajectory_cancel = λ id token. true;
  set_gains = λ gains token. record { accepted = true; message = "" };
}

abbrev view : SinkView ℕ
view = record { stamp_s = 5; contact = stopped }

abbrev gripper : GripperSink ℕ ℕ
gripper = record {
  gripper_setpoint = λ s p. (p.command).position;
  query_gripper = λ s. record { position = s; effort = 0; current = 0; present = true };
}

abbrev close_gripper : GripperSetpointMsg ℕ
close_gripper = record { position = 1000; speed = 1; force = 1; token = 9 }

abbrev move : MoveGoal ℕ
move = record {
  control_mode = 0;
  gains = no_gains;
  sender_id = "client";
  token = 9;
  speed_scale = none;
}
