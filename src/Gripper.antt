-- ===== src/Gripper.antt =====
-- gripper_server.cpp: /setpoint/gripper, /gripper_state and the "Gripper" page. The sink is a
-- parameter over an abstract state `S`; the optional source of contact stops is what it answers.
use kinova_gen3_ros.Common.{Bool, not, ◌&&◌, [], ◌∷◌, Option, none, some, if◌then◌else◌}
use kinova_gen3_ros.Common.Text.{String}
use kinova_gen3_ros.Driver.{ContactState, GripperSetpoint, GripperState}
use kinova_gen3_ros.Messages.{GripperSetpointMsg, GripperStateMsg}
use kinova_gen3_ros.Diagnostics.{Page, ok, warn, number, flag}
use kinova_gen3_ros.Mapping.Limits.{contact_rejection, to_gripper_setpoint, to_gripper_state_msg}

-- kinova_lowlevel's GripperSink.
pub record GripperSink (W S : Type 0) : Type 0 where
  pub gripper_setpoint : S → GripperSetpoint W → S
  pub query_gripper : S → GripperState W

module _ {W S : Type 0} (sink : GripperSink W S) where
  -- `if (contact_) { if (auto why = contact_rejection(...)) ... }`
  abbrev pub contact_refusal : Option (ContactState W) → Option String
  contact_refusal none = none
  contact_refusal (some s) = contact_rejection s

  abbrev pub pass_on : Option String → GripperSetpointMsg W → S → S
  pass_on (some why) m s = s
  pass_on none m s = sink.gripper_setpoint s (to_gripper_setpoint m)

  -- GripperServer::on_setpoint
  unfoldable pub on_setpoint : Option (ContactState W) → GripperSetpointMsg W → S → S
  on_setpoint contact m s = pass_on (contact_refusal contact) m s

  -- The message of GripperServer::publish_state, without its stamp.
  unfoldable pub gripper_state : S → GripperStateMsg W
  unfolding to_gripper_state_msg
  gripper_state s = to_gripper_state_msg (sink.query_gripper s)

  -- GripperServer::diagnostics
  unfoldable pub gripper_diagnostics : Bool → S → Page W
  gripper_diagnostics expect_gripper s =
      let g = sink.query_gripper s in
      let values =
        ("present", flag g.present)
        ∷ ("position", number g.position)
        ∷ ("effort_fraction", number g.effort)
        ∷ ("current_a", number g.current)
        ∷ [] in
      if expect_gripper && not g.present
      then record {
        level = warn;
        message = "no gripper reported, but expect_gripper is true";
        values = values;
      }
      else record {
        level = ok;
        message = if g.present then "gripper present" else "no gripper (expected)";
        values = values;
      }
