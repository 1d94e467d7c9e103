-- ===== src/Bringup/Startup/Endings.antt =====
-- How main ends, in all of its branches.
use kinova_gen3_ros.Common.{◌≡◌, ◌⊎◌, true, false, List, none, string_eq}
use kinova_gen3_ros.Common.Text.{String}
use kinova_gen3_ros.Common.Results.{Result, throws}
use kinova_gen3_ros.Externals.{Double}
use kinova_gen3_ros.Bringup.{Step, continues, exits, uncaught, undefined, parse_args}
use kinova_gen3_ros.Bringup.Startup.{Environment, Drive}
use kinova_gen3_ros.Bringup.Startup.Ready.{IsReady}

abbrev pub Threw : {A : Type 0} → Result A → Type 0
Threw r = (why : String) × (r ≡ throws why)

module _ {W S : Type 0} ⦃d : Double W⦄ (env : Environment W S) (args : List String) where
  -- A stop was asked for: rclcpp is down when the wait for the model ends without one, or a signal
  -- has come by the end of the setup.
  abbrev pub StopAsked : Type 0
  StopAsked = ((env.description ≡ none) × (env.ok_after_wait ≡ false)) ⊎ (env.stop_in_setup ≡ true)

  -- What an ending says.
  abbrev pub Justified : Step (Drive W S) → Type 0
  Justified (continues r) = IsReady env args r
  Justified (exits n) = ((n ≡ 0) × StopAsked) ⊎ (n ≡ 1) ⊎ (n ≡ 2)
  Justified uncaught =
      (parse_args env.numerals args ≡ uncaught)
      ⊎ Threw (env.node.declare_text "arbitration_mode" "disabled")
      ⊎ Threw (env.node.declare_flag "expect_gripper" true)
      ⊎ Threw env.supervisor
      ⊎ Threw env.transport
      ⊎ Threw env.backend
  Justified undefined = parse_args env.numerals args ≡ undefined

  -- The same, of the endings before the drive.
  abbrev Early : Step (Drive W S) → Type 0
  Early (continues r) = Unit
  Early (exits n) = Justified (exits n)
  Early uncaught = Justified uncaught
  Early undefined = Justified undefined

  -- A step that goes on or ends with a justified status.
  abbrev Plain : {A : Type 0} → Step A → Type 0
  Plain (continues a) = Unit
  Plain (exits n) = Justified (exits n)
  Plain uncaught = ⊥
  Plain undefined = ⊥
