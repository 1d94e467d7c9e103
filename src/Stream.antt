-- ===== src/Stream.antt =====
-- stream_server.h and stream_server.cpp: the streaming sessions. Core's StreamSink is a parameter
-- over an abstract state `S`. A handler is one step here, and is cut at its calls of core and its
-- holds of the mutex in Threads. The setpoint callbacks are in Setpoints.
pub mod Sessions
pub mod Threads
pub mod Setpoints
use kinova_gen3_ros.Common.{
  ℕ, Bool, true, false, not, ◌&&◌, List, [], ◌∷◌, map, Option, none, some, length, ◌==◌, ℕ_eq,
  string_eq, list_eq, if◌then◌else◌,
}
use kinova_gen3_ros.Common.Text.{String, ◌++◌}
use kinova_gen3_ros.Driver.{
  num_joints, Token, SetpointKind, joint_position, ee_pose, joint_torque, joint_velocity, ee_twist,
  ControlModeKind, position, impedance, torque, velocity, ImpedanceGains, ResultCode,
  stream_rejected,
}
use kinova_gen3_ros.Messages.{ImpedanceGainsMsg}
use kinova_gen3_ros.Externals.{Double, Packages}
use kinova_gen3_ros.Mapping.Gains.{to_impedance_gains, mode_gains_rejection}
use kinova_gen3_ros.PlannedMove.{is_impedance}

pub record ControllerRow : Type 0 where
  pub name : String
  pub channels : List String
  pub core_backed : Bool
  pub kind : SetpointKind
  pub mode : ControlModeKind

abbrev row : String → List String → Bool → SetpointKind → ControlModeKind → ControllerRow
row name channels core_backed kind mode = record {
  name = name;
  channels = channels;
  core_backed = core_backed;
  kind = kind;
  mode = mode;
}

unfoldable pub registry : List ControllerRow
registry =
    row "joint_position" ("joint_position" ∷ []) true joint_position position
    ∷ row "joint_impedance" ("joint_position" ∷ []) true joint_position impedance
    ∷ row "ee_pose_impedance" ("pose" ∷ []) true ee_pose impedance
    ∷ row "ee_pose_position" ("pose" ∷ []) true ee_pose position
    ∷ row "joint_torque" ("joint_torque" ∷ []) true joint_torque torque
    ∷ row "joint_velocity" ("joint_velocity" ∷ []) true joint_velocity velocity
    ∷ row "joint_velocity_impedance" ("joint_velocity" ∷ []) true joint_velocity impedance
    ∷ row "ee_twist" ("twist" ∷ []) true ee_twist velocity
    ∷ row "ee_twist_impedance" ("twist" ∷ []) true ee_twist impedance
    ∷ row "cartesian_impedance" ("pose" ∷ "wrench" ∷ []) false ee_pose impedance
    ∷ []

-- The loop for a row with this name.
unfoldable pub find_row : String → List ControllerRow → Option ControllerRow
find_row name [] = none
find_row name (r ∷ rs) = let rest = find_row name rs in if r.name == name then some r else rest

pub record Capability : Type 0 where
  pub name : String
  pub channels : List String
  pub available : Bool

module _ (W : Type 0) ⦃k : Packages W⦄ where
  unfoldable pub available : ControllerRow → Bool
  available r = r.core_backed && length r.channels == 1 && k.pair_supported r.kind r.mode

  unfoldable pub on_list : List Capability
  unfolding registry available
  on_list =
      map (λ r. record { name = r.name; channels = r.channels; available = available r }) registry

-- Core's stream types.
pub record StreamStatus (W : Type 0) : Type 0 where
  pub is_open : Bool
  pub timeout_s : W
  pub rejected_count : ℕ

pub record StreamOpenRequest (W : Type 0) : Type 0 where
  pub kind : SetpointKind
  pub control_mode : ControlModeKind
  pub timeout_s : W
  pub gains : ImpedanceGains W
  pub token : Token

pub record StreamOpenResult : Type 0 where
  pub accepted : Bool
  pub error_code : ResultCode
  pub message : String

pub record StreamSink (S W : Type 0) : Type 0 where
  pub stream_open : S → StreamOpenRequest W → S × StreamOpenResult
  pub stream_close : S → Token → S
  pub query_stream : S → StreamStatus W

-- rammp_arm_interfaces messages
pub record OpenStreamRequest (W : Type 0) : Type 0 where
  pub controller : String
  pub timeout_s : W
  pub gains : ImpedanceGainsMsg W
  pub token : Token

pub record OpenStreamResponse : Type 0 where
  pub accepted : Bool
  pub error_code : ResultCode
  pub message : String
  pub channels : List String

pub record StreamStatusMsg (W : Type 0) : Type 0 where
  pub is_open : Bool
  pub controller : String
  pub channels : List String
  pub timeout_s : W
  pub rejected_count : ℕ

pub record StreamServer (S W : Type 0) : Type 0 where
  pub core : S
  pub open_controller : String
  pub last_published : Option (StreamStatusMsg W)
  pub published : List (StreamStatusMsg W)

abbrev pub channels_of : Option ControllerRow → List String
channels_of none = []
channels_of (some r) = r.channels

abbrev bool_eq : Bool → Bool → Bool
bool_eq true b = b
bool_eq false b = not b

module _ {W : Type 0} (w_eq : W → W → Bool) where
  -- The payload without the header; `w_eq` is `operator==` on doubles.
  unfoldable pub same : StreamStatusMsg W → StreamStatusMsg W → Bool
  unfolding bool_eq
  same a b =
      bool_eq a.is_open b.is_open
      && a.controller == b.controller
      && a.channels == b.channels
      && w_eq a.timeout_s b.timeout_s
      && a.rejected_count == b.rejected_count

  unfoldable pub repeats : Option (StreamStatusMsg W) → StreamStatusMsg W → Bool
  unfolding same
  repeats none m = false
  repeats (some last) m = same last m

module _ {S W : Type 0} where
  -- The label that is left when core's status was read: dropped as soon as core says closed.
  abbrev pub label : StreamStatus W → StreamServer S W → String
  label s v = if not s.is_open then "" else v.open_controller

  abbrev pub status_message : StreamStatus W → StreamServer S W → StreamStatusMsg W
  status_message s v = record {
    is_open = s.is_open;
    controller = label s v;
    channels = channels_of (find_row (label s v) registry);
    timeout_s = s.timeout_s;
    rejected_count = s.rejected_count;
  }

module _ {S W : Type 0} (w_eq : W → W → Bool) where
  -- The part of publish_status_if_changed that holds the mutex, and the publication.
  unfoldable pub publish_locked : StreamStatus W → StreamServer S W → StreamServer S W
  unfolding repeats
  publish_locked s v =
      let m = status_message s v in
      let labelled = record v { open_controller = label s v } in
      if repeats w_eq v.last_published m
      then labelled
      else record labelled { last_published = some m; published = m ∷ v.published }

module _ {S W : Type 0} (w_eq : W → W → Bool) (sink : StreamSink S W) where
  unfoldable pub publish_status_if_changed : StreamServer S W → StreamServer S W
  unfolding publish_locked
  publish_status_if_changed v = publish_locked w_eq (sink.query_stream v.core) v

  unfoldable pub on_close : Token → StreamServer S W → StreamServer S W
  unfolding publish_status_if_changed
  on_close token v =
      publish_status_if_changed
        (record v { core = sink.stream_close v.core token; open_controller = "" })

abbrev pub refusal : String → OpenStreamResponse
refusal why = record {
  accepted = false;
  error_code = stream_rejected;
  message = why;
  channels = [];
}

abbrev pub gains_mode : ControlModeKind → ℕ
gains_mode m = if is_impedance m then 1 else 0

module _ {W : Type 0} ⦃k : Packages W⦄ where
  abbrev pub open_request : OpenStreamRequest W → ControllerRow → StreamOpenRequest W
  open_request req r = record {
    kind = r.kind;
    control_mode = r.mode;
    timeout_s = req.timeout_s;
    gains = to_impedance_gains req.gains;
    token = req.token;
  }

module _ {S W : Type 0} ⦃k : Packages W⦄ (w_eq : W → W → Bool) (sink : StreamSink S W) where
  -- The end of on_open, once the request is passed on to core.
  abbrev pub open_row :
      OpenStreamRequest W → ControllerRow → StreamServer S W → StreamServer S W × OpenStreamResponse
  open_row req r v =
      let (core, res) = sink.stream_open v.core (open_request req r) in
      (
        publish_status_if_changed w_eq sink (record v {
          core = core;
          open_controller = if res.accepted then r.name else v.open_controller;
        }),
        record {
          accepted = res.accepted;
          error_code = res.error_code;
          message = res.message;
          channels = if res.accepted then r.channels else [];
        },
      )

  abbrev pub check_gains :
      OpenStreamRequest W
      → ControllerRow
      → StreamServer S W
      → Option String
      → StreamServer S W × OpenStreamResponse
  check_gains req r v (some why) = (v, refusal why)
  check_gains req r v none = open_row req r v

  abbrev pub open_found :
      OpenStreamRequest W
      → StreamServer S W
      → Option ControllerRow
      → StreamServer S W × OpenStreamResponse
  open_found req v none = (
    v,
    refusal (
        "unknown controller '"
        ++ (req.controller ++ "'; call /list_controllers for the available set")),
  )
  open_found req v (some r) =
      if not (available W r)
      then (v, refusal ("controller '" ++ (r.name ++ "' is not available in this driver version")))
      else check_gains req r v (mode_gains_rejection (gains_mode r.mode) req.gains)

  unfoldable pub on_open :
      OpenStreamRequest W → StreamServer S W → StreamServer S W × OpenStreamResponse
  on_open req v = open_found req v (find_row req.controller registry)
