-- ===== src/Contact.antt =====
-- contact_server.cpp: /set_contact_thresholds and the residual topic; the page is in Page.
-- The gated command sink is a parameter over an abstract state `S`. A `JointVec` is the list of its
-- seven entries. Log messages are left out.
pub mod Thresholds
pub mod Page
pub mod Severity
pub mod Params
use kinova_gen3_ros.Common.{
  ℕ, suc, ◌+◌, Bool, true, false, not, ◌&&◌, List, [], ◌∷◌, ◌++◌, Option, none, some, length,
  get_elem?, is_empty, ltb, ◌==◌, ℕ_eq, string_eq, if◌then◌else◌,
}
use kinova_gen3_ros.Common.Text.{String, to_string}
use kinova_gen3_ros.Common.Text.{◌++◌ as ◌<>◌}
use kinova_gen3_ros.Common.Int.{ℤ, pos, negsuc, succ}
use kinova_gen3_ros.Common.Results.{Result, returns, throws, ◌>>=◌}
use kinova_gen3_ros.Driver.{
  num_joints, Token, ContactPhase, settling, armed, latched, ContactDetection, enforce, observe,
  ContactProfile, default_profile, sensitive, loose, custom_profile, ContactStatus, ContactState,
}
use kinova_gen3_ros.Externals.{Double}
use kinova_gen3_ros.Mapping.Trajectory.{copy_into}

-- Req::PROFILE_DEFAULT, PROFILE_SENSITIVE, PROFILE_LOOSE and PROFILE_CUSTOM, which the code asserts
-- to be core's enum values, and names as 0, 1, 2 and 3 in its refusal.
unfoldable pub profile_byte : ContactProfile → ℕ
profile_byte default_profile = 0
profile_byte sensitive = 1
profile_byte loose = 2
profile_byte custom_profile = 3

pub record SetContactThresholds (W : Type 0) : Type 0 where
  pub profile : ℕ
  pub custom : List W
  pub token : Token

pub record ContactThresholdsRequest (W : Type 0) : Type 0 where
  pub profile : ContactProfile
  pub custom : List W
  pub token : Token

pub record ContactThresholdsResult (W : Type 0) : Type 0 where
  pub accepted : Bool
  pub message : String
  pub profile : ContactProfile
  pub theta : List W

pub record SetContactResponse (W : Type 0) : Type 0 where
  pub accepted : Bool
  pub message : String
  pub profile : ℕ
  pub thresholds : List W

-- kinova_lowlevel's CommandSink, as far as this server calls it.
pub record ContactSink (W S : Type 0) : Type 0 where
  pub set_contact_thresholds : S → ContactThresholdsRequest W → S × ContactThresholdsResult W
  pub query_contact : S → ContactState W

-- The switch over the request's profile byte.
unfoldable pub read_profile : ℕ → Result ContactProfile
read_profile profile =
    if profile == 0
    then returns default_profile
    else if profile == 1
    then returns sensitive
    else if profile == 2
    then returns loose
    else if profile == 3
    then returns custom_profile
    else throws (
        "unknown profile "
        <> (to_string profile
            <> (": expected PROFILE_DEFAULT (0), PROFILE_SENSITIVE (1), "
                <> "PROFILE_LOOSE (2) or PROFILE_CUSTOM (3)")))

abbrev pub is_custom : ContactProfile → Bool
is_custom custom_profile = true
is_custom _ = false

module _ {W : Type 0} ⦃d : Double W⦄ where
  -- The loop over the custom values, from joint `i` on: `out` is what is left to fill.
  unfoldable pub fill_custom : ℕ → List W → List W → Result (List W)
  fill_custom i (x ∷ xs) (o ∷ out) =
      let rest = fill_custom (i + 1) xs out in
      if not (d.is_finite x)
      then throws (
          "custom joint "
          <> (to_string (i + 1) <> (" threshold is " <> (d.to_text x <> ": must be finite"))))
      else rest >>= λ filled. returns (x ∷ filled)
  fill_custom i _ out = returns out

  -- What the request's values become, `held` being what `out.custom` held.
  unfoldable pub read_custom : Bool → List W → List W → Result (List W)
  unfolding fill_custom
  read_custom false custom held =
      if not (length custom == 0)
      then throws (
          "custom must be empty for a named profile (got "
          <> (to_string (length custom) <> " values); use PROFILE_CUSTOM to set exact thresholds"))
      else returns held
  read_custom true custom held =
      if not (length custom == num_joints)
      then throws (
          "PROFILE_CUSTOM needs exactly "
          <> (to_string num_joints
              <> (" values (N·m, joints 1..7), got " <> to_string (length custom))))
      else fill_custom 0 custom held

  -- to_contact_request, which fills `out` or says why not.
  unfoldable pub to_contact_request :
      SetContactThresholds W → ContactThresholdsRequest W → Result (ContactThresholdsRequest W)
  unfolding read_profile read_custom
  to_contact_request req out = do
    profile ← read_profile req.profile
    custom ← read_custom (is_custom profile) req.custom out.custom
    returns (record { profile = profile; custom = custom; token = req.token })

-- The default values of the types the handler declares (of core), and the response it is given.
pub record Blank (W : Type 0) : Type 0 where
  pub request : ContactThresholdsRequest W
  pub result : ContactThresholdsResult W
  pub thresholds : List W

module _ {W S : Type 0} ⦃d : Double W⦄ (sink : ContactSink W S) (blank : Blank W) where
  -- `if (auto why = ...) ... else ...`
  abbrev pub ask_core : Result (ContactThresholdsRequest W) → S → S × ContactThresholdsResult W
  ask_core (throws why) s = (s, record blank.result { message = why })
  ask_core (returns r) s = sink.set_contact_thresholds s r

  -- A refusal reports what is active.
  abbrev pub with_active : S → ContactThresholdsResult W → ContactThresholdsResult W
  with_active s out =
      if not out.accepted
      then record out {
        profile = (sink.query_contact s).profile;
        theta = (sink.query_contact s).status.theta;
      }
      else out

  -- ContactServer::on_set
  unfoldable pub on_set : SetContactThresholds W → S → S × SetContactResponse W
  unfolding to_contact_request profile_byte copy_into
  on_set req s =
      let asked = ask_core (to_contact_request req blank.request) s in
      let out = with_active asked.0 asked.1 in
      (
        asked.0,
        record {
          accepted = (asked.1).accepted;
          message = (asked.1).message;
          profile = profile_byte out.profile;
          thresholds = copy_into blank.thresholds out.theta;
        },
      )

-- The part of sensor_msgs/JointState that publish_residual fills.
pub record Residual (W : Type 0) : Type 0 where
  pub name : List String
  pub effort : List W

unfoldable pub publishes_residual : Bool → String → Bool
publishes_residual debug_topic detection =
    if debug_topic && detection == "off" then false else debug_topic

module _ {W : Type 0} where
  unfoldable pub publish_residual : List String → ContactState W → Residual W
  publish_residual arm_joints s = record { name = arm_joints; effort = s.status.r }
