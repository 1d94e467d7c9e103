-- ===== src/Speed.antt =====
-- speed_scale_param.cpp: the parameter global_speed_scale and its page. Core's sink is a parameter
-- over an abstract state `S`. rclcpp checks a parameter's type and range before the callback is run;
-- the parameter that it keeps is in Applied/Parameter.
pub mod Applied
use kinova_gen3_ros.Common.{
  Bool, true, false, not, ◌&&◌, List, [], ◌∷◌, ◌==◌, string_eq, if◌then◌else◌,
}
use kinova_gen3_ros.Common.Text.{String, ◌++◌}
use kinova_gen3_ros.Common.Results.{Result, returns, throws}
use kinova_gen3_ros.Diagnostics.{Page, ok, text}
use kinova_gen3_ros.Externals.{Double}

pub record SpeedResult : Type 0 where
  pub accepted : Bool
  pub message : String

-- kinova_lowlevel's CommandSink, as far as this parameter calls it.
pub record SpeedSink (W S : Type 0) : Type 0 where
  pub set_speed_override : S → W → S × SpeedResult

-- rcl_interfaces/SetParametersResult
pub record SetResult : Type 0 where
  pub successful : Bool
  pub reason : String

-- `value_`, with the core it is wired to.
pub record SpeedScaleParam (W S : Type 0) : Type 0 where
  pub value : W
  pub core : S

abbrev pub scale_name : String
scale_name = "global_speed_scale"

module _ {W S : Type 0} (sink : SpeedSink W S) where
  abbrev pub started : W → S × SpeedResult → Result (SpeedScaleParam W S)
  started start (core, r) =
      if not r.accepted
      then throws (scale_name ++ (": " ++ r.message))
      else returns (record { value = start; core = core })

  -- The constructor, with what rclcpp gives for the declared parameter.
  unfoldable pub start_scale : W → S → Result (SpeedScaleParam W S)
  start_scale start core = started start (sink.set_speed_override core start)

  abbrev pub apply_scale : W → S × SpeedResult → SpeedScaleParam W S → SpeedScaleParam W S
  apply_scale scale (core, r) p =
      if not r.accepted then record p { core = core } else record { value = scale; core = core }

  -- SpeedScaleParam::on_set: a refusal ends the loop.
  unfoldable pub on_set : List (String × W) → SpeedScaleParam W S → SpeedScaleParam W S × SetResult
  on_set [] p = (p, record { successful = true; reason = "" })
  on_set ((name, scale) ∷ params) p =
      let named = name == scale_name in
      let answer = sink.set_speed_override p.core scale in
      let next = if named then apply_scale scale answer p else p in
      let rest = on_set params next in
      if named && not (answer.1).accepted
      then (next, record { successful = false; reason = (answer.1).message })
      else rest

module _ {W : Type 0} ⦃d : Double W⦄ where
  unfoldable pub speed_scale_diagnostics : W → Page W
  speed_scale_diagnostics scale =
      let b = d.fit 64 (d.show_2f scale) in
      record {
        level = ok;
        message = "arm motions at " ++ (b ++ "x");
        values =
            (scale_name, text b)
            ∷ (
              "applies to",
              text (
                  "trajectories, velocity/twist and position streams; not torque "
                  ++ "streams or the gripper"),
            )
            ∷ [];
      }
