-- ===== src/Bringup/Startup.antt =====
-- main in bringup_node.cpp: the order of its checks, what it refuses to start on, and its exit
-- status. What it asks of rclcpp, of core and of the Kortex SDK is the record `Environment`; what
-- it logs is left out, and what it hands its parts is in Bringup/Wiring. That the goal servers and
-- the supervisor can be constructed is the one outcome `supervisor`; an exception of another kind than std::logic_error out of the link's run is outside the model.
pub mod Ready
pub mod Endings
use kinova_gen3_ros.Common.{
  ℕ, ◌-◌, Bool, true, false, not, ◌||◌, List, [], ◌∷◌, Option, none, some, ltb, ◌==◌, string_eq,
  if◌then◌else◌,
}
use kinova_gen3_ros.Common.Text.{String}
use kinova_gen3_ros.Common.Int.{ℤ, pos, negsuc}
use kinova_gen3_ros.Common.Results.{Result, returns, throws}
use kinova_gen3_ros.Common.Results.{◌>>=◌ as then_try}
use kinova_gen3_ros.Externals.{Double}
use kinova_gen3_ros.Arbitration.{ArbitrationMode, enforced, disabled}
use kinova_gen3_ros.Contact.Params.{
  ParameterNode, ContactCore, ContactNodeConfig, ContactMonitorConfig, FloatParams,
  declare_contact_params,
}
use kinova_gen3_ros.Speed.{SpeedSink, SpeedScaleParam, start_scale, scale_name}
use kinova_gen3_ros.Description.{Urdf, joint_state_names}
use kinova_gen3_ros.Bringup.{
  Options, Numerals, Step, continues, exits, uncaught, undefined, parse_args,
}

infixl 5 ◌>>=◌ ◌>>◌
abbrev pub ◌>>=◌ {ℓ κ} : {A : Type ℓ} {B : Type κ} → Step A → (A → Step B) → Step B
continues a >>= f = f a
exits n >>= f = exits n
uncaught >>= f = uncaught
undefined >>= f = undefined

abbrev pub ◌>>◌ {ℓ} : {B : Type ℓ} → Step (Unit {0}) → Step B → Step B
m >> k = m >>= λ _. k

-- `try { ... } catch (...) { ...; return 1; }`, and no `try` at all.
abbrev pub caught : {A : Type 0} → Result A → Step A
caught (returns a) = continues a
caught (throws why) = exits 1

abbrev pub not_caught : {A : Type 0} → Result A → Step A
not_caught (returns a) = continues a
not_caught (throws why) = uncaught

pub record Environment (W S : Type 0) : Type 0 where
  pub numerals : Numerals W
  pub description : Option String  -- what wait_for_robot_description returns
  pub ok_after_wait : Bool  -- rclcpp::ok() after it
  pub dynamics : String → String → Result (List String)  -- Dynamics, and its joint_names()
  pub urdf : Urdf
  pub has_kortex : Bool  -- built without KINOVA_NO_KORTEX
  pub node : ParameterNode W
  pub contact_core : ContactCore W
  pub attach : ContactMonitorConfig W → FloatParams W → Result (Unit {0})  -- the two constructors
  pub transport : Result (Unit {0})  -- the transport's construction
  pub backend : Result (Unit {0})  -- Ros2Backend's construction
  pub supervisor : Result (Unit {0})  -- the goal servers' and the supervisor's construction
  pub speed_sink : SpeedSink W S
  pub core : S
  pub stop_in_setup : Bool  -- g_stop once the setup is done
  pub link_run : Result (Unit {0})  -- ArmLink::run, with its std::logic_error

-- `base`: the simulator, or the Kortex SDK with the address, and the priority and core of its thread.
pub data Transport : Type 0 where
  sim : Transport
  kortex : String → ℤ → ℤ → Transport

-- `prio > 1 ? prio - 1 : prio`
unfoldable pub kortex_prio : ℤ → ℤ
kortex_prio (pos n) = if ltb 1 n then pos (n - 1) else pos n
kortex_prio (negsuc n) = negsuc n

-- What the arm is driven with.
pub record Drive (W S : Type 0) : Type 0 where
  pub options : Options W
  pub model : String
  pub js_names : List String
  pub transport : Transport
  pub speed_cap : Option W  -- the rate limit of --max-ref-speed, or `none`: the model's limits
  pub contact : ContactNodeConfig W
  pub attached : Bool  -- whether the contact monitor is
  pub arbitration : ArbitrationMode
  pub expect_gripper : Bool
  pub speed_scale : SpeedScaleParam W S
  pub status : ℕ  -- main's exit status after the run

unfoldable pub fetch_model : Option String → Bool → Step String
fetch_model (some xml) ok = continues xml
fetch_model none ok = exits (if not ok then 0 else 1)

module _ {W : Type 0} where
  unfoldable pub choose_transport : Bool → Options W → Step Transport
  choose_transport has_kortex o =
      if o.use_sim
      then continues sim
      else if not has_kortex
      then exits 2
      else if o.ip == ""
      then exits 2
      else continues (kortex o.ip (kortex_prio o.prio) o.cpu)

unfoldable pub choose_mode : String → Step ArbitrationMode
choose_mode mode =
    if not (mode == "enforced" || mode == "disabled")
    then exits 1
    else continues (if mode == "enforced" then enforced else disabled)

unfoldable pub check_stop : Bool → Step (Unit {0})
check_stop stop = if stop then exits 0 else continues tt

-- The status after link.run: a configuration error is caught.
abbrev pub run_status : Result (Unit {0}) → ℕ
run_status (returns _) = 0
run_status (throws why) = 1

module _ {W S : Type 0} ⦃d : Double W⦄ (env : Environment W S) where
  unfoldable pub speed_cap_of : Options W → Option W
  speed_cap_of o = if d.lt (d.decimal 0 0) o.max_ref_speed then some o.max_ref_speed else none

  -- Each Dynamics is built from the same model and frame.
  unfoldable pub load_model : Options W → String → Result (List String)
  load_model o xml = then_try (env.dynamics xml o.ee_frame) (joint_state_names env.urdf xml)

  -- With "off" nothing is attached.
  unfoldable pub attach_contact : ContactNodeConfig W → Result (Unit {0})
  attach_contact c =
      if not (c.detection == "off") then env.attach c.monitor c.floating else returns tt

  unfoldable pub load_contact : Result (ContactNodeConfig W)
  unfolding attach_contact
  load_contact =
      then_try (declare_contact_params env.node env.contact_core)
        (λ c. then_try (attach_contact c) (λ _. returns c))

  unfoldable pub load_scale : Result (SpeedScaleParam W S)
  load_scale =
      then_try (env.node.declare_number scale_name (d.decimal 1 0))
        (λ start. start_scale env.speed_sink start env.core)

  -- The run, by what was checked before it.
  abbrev pub drive :
      Options W
      → String
      → List String
      → Transport
      → ContactNodeConfig W
      → ArbitrationMode
      → Bool
      → SpeedScaleParam W S
      → Drive W S
  drive o xml js_names transport contact mode expect_gripper speed_scale = record {
    options = o;
    model = xml;
    js_names = js_names;
    transport = transport;
    speed_cap = speed_cap_of o;
    contact = contact;
    attached = not (contact.detection == "off");
    arbitration = mode;
    expect_gripper = expect_gripper;
    speed_scale = speed_scale;
    status = run_status env.link_run;
  }

  -- main: the run of the arm, when it comes to it, or how it ends before.
  unfoldable pub main : List String → Step (Drive W S)
  main args = do
    o ← parse_args env.numerals args
    xml ← fetch_model env.description env.ok_after_wait
    js_names ← caught (load_model o xml)
    transport ← choose_transport env.has_kortex o
    not_caught env.transport
    contact ← caught load_contact
    not_caught env.backend
    mode_text ← not_caught (env.node.declare_text "arbitration_mode" "disabled")
    mode ← choose_mode mode_text
    expect_gripper ← not_caught (env.node.declare_flag "expect_gripper" true)
    not_caught env.supervisor
    speed_scale ← caught load_scale
    check_stop env.stop_in_setup
    continues (drive o xml js_names transport contact mode expect_gripper speed_scale)
