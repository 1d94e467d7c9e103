-- ===== src/Bringup/Startup/Ready.antt =====
-- What main has checked when it comes to drive the arm.
use mathlib.Core.Path.{subst}
use text.Mathlib.TextEquality.{eq_iff}
use kinova_gen3_ros.Common.{
  ◌≡◌, ◌≢◌, ◌↔◌, ◌⊎◌, refl, ap, ◌∙◌, Bool, true, false, List, [], ◌∷◌, ◌++◌, Option, none, some,
  string_eq, arith,
}
use kinova_gen3_ros.Common.Text.{String}
use kinova_gen3_ros.Common.Results as Results
use kinova_gen3_ros.Common.Results.{Result, returns, throws}
use kinova_gen3_ros.Externals.{Double}
use kinova_gen3_ros.Arbitration.{ArbitrationMode, enforced, disabled}
use kinova_gen3_ros.Contact.Params.{declare_contact_params, ContactNodeConfig}
use kinova_gen3_ros.Contact.Params.Checks.{IsSound, accepted_config-IsSound}
use kinova_gen3_ros.Description.{joint_state_names, gripper_joint}
use kinova_gen3_ros.Bringup.{Options, Step, continues, exits, uncaught, undefined, parse_args}
use kinova_gen3_ros.Bringup.Startup.{
  ◌>>=◌, Environment, Drive, Transport, sim, kortex, kortex_prio, fetch_model, choose_transport,
  choose_mode, check_stop, load_model, attach_contact, load_contact, load_scale, main, caught,
  not_caught, run_status, drive,
}

after_step {ℓ κ μ} :
    {A : Type ℓ} {B : Type κ} {P : Type μ} (m : Step A) (f : A → Step B) {b : B}
    → (m >>= f) ≡ continues b
    → ((a : A) → m ≡ continues a → f a ≡ continues b → P)
    → P
after_step (continues a) f e k = k a refl e
after_step (exits n) f e k = absurd cc
after_step uncaught f e k = absurd cc
after_step undefined f e k = absurd cc

caught_lem : {A : Type 0} (m : Result A) (a : A) → caught m ≡ continues a → m ≡ returns a
caught_lem (returns b) a e = cc e
caught_lem (throws why) a e = absurd (cc e)

not_caught_lem : {A : Type 0} (m : Result A) (a : A) → not_caught m ≡ continues a → m ≡ returns a
not_caught_lem (returns b) a e = cc e
not_caught_lem (throws why) a e = absurd (cc e)

abbrev pub mode_name : ArbitrationMode → String
mode_name enforced = "enforced"
mode_name disabled = "disabled"

pub run_status_lem : (run : Result (Unit {0})) → (run_status run ≡ 0) ↔ (run ≡ returns tt)
run_status_lem (returns t) = ((λ e. refl), (λ e. refl))
run_status_lem (throws why) = ((λ e. absurd (omega arith)), (λ e. absurd (cc e)))

fetch_model_lem :
    (m : Option String) (ok : Bool) (xml : String) → fetch_model m ok ≡ continues xml → m ≡ some xml
unfolding fetch_model
fetch_model_lem (some m) ok xml e = cc e
fetch_model_lem none ok xml e = absurd (cc e)

choose_mode_lem :
    (text : String) (m : ArbitrationMode) → choose_mode text ≡ continues m → text ≡ mode_name m
unfolding choose_mode
choose_mode_lem text m e = ground (arith, e, eq_iff text "enforced", eq_iff text "disabled")

check_stop_lem : (stop : Bool) (t : Unit {0}) → check_stop stop ≡ continues t → stop ≡ false
unfolding check_stop
check_stop_lem stop t e = ground (arith, e)

module _ {W : Type 0} where
  -- The simulator, when it is asked for; or the arm at an address that is given.
  abbrev pub IsChosen : Bool → Options W → Transport → Type 0
  IsChosen has_kortex o t =
      ((o.use_sim ≡ true) × (t ≡ sim))
      ⊎ ((o.use_sim ≡ false)
          × (has_kortex ≡ true)
          × (o.ip ≢ "")
          × (t ≡ kortex o.ip (kortex_prio o.prio) o.cpu))

  choose_transport_lem :
      (has_kortex : Bool) (o : Options W) (t : Transport)
      → choose_transport has_kortex o ≡ continues t
      → IsChosen has_kortex o t
  unfolding choose_transport
  choose_transport_lem has_kortex o t e = ground (arith, e, eq_iff o.ip "")

module _ {W S : Type 0} ⦃d : Double W⦄ (env : Environment W S) where
  -- The joints of /joint_states: the model's arm joints, and the gripper's joint, which it has.
  abbrev pub IsNamed : Options W → String → List String → Type 0
  IsNamed o xml js_names =
      (names : List String) × (env.dynamics xml o.ee_frame ≡ returns names)
      × (env.urdf.get_joint xml gripper_joint ≡ true)
      × (js_names ≡ names ++ (gripper_joint ∷ []))

  load_model_lem :
      (o : Options W) (xml : String) (js : List String)
      → load_model env o xml ≡ returns js
      → IsNamed o xml js
  unfolding load_model joint_state_names
  load_model_lem o xml js e =
      Results.after_step (env.dynamics xml o.ee_frame) _ e λ names got named.
        let rest : (env.urdf.get_joint xml gripper_joint ≡ true)
            × (js ≡ names ++ (gripper_joint ∷ [])) =
          ground (arith, named) in
        (names, got, rest.0, rest.1)

  load_contact_lem :
      (c : ContactNodeConfig W)
      → load_contact env ≡ returns c
      → IsSound env.node env.contact_core c
        × ((c.detection ≡ "off") ⊎ (env.attach c.monitor c.floating ≡ returns tt))
  unfolding load_contact attach_contact
  load_contact_lem c e =
      Results.after_step (declare_contact_params env.node env.contact_core) _ e λ u declared e₁.
        Results.after_step (attach_contact env u) _ e₁ λ t attached e₂.
          let same : u ≡ c = cc e₂ in
          subst
            (λ c.
              IsSound env.node env.contact_core c
              × ((c.detection ≡ "off") ⊎ (env.attach c.monitor c.floating ≡ returns tt)))
            same
            (
              accepted_config-IsSound env.node env.contact_core u declared,
              ground (arith, attached, eq_iff u.detection "off"),
            )

  pub record IsReady (args : List String) (r : Drive W S) : Type 0 where
    pub options_read : parse_args env.numerals args ≡ continues r.options
    pub model_fetched : env.description ≡ some r.model
    pub joints_named : IsNamed r.options r.model r.js_names
    pub transport_chosen : IsChosen env.has_kortex r.options r.transport
    pub contact_sound : IsSound env.node env.contact_core r.contact
    pub contact_attached :
        (r.contact.detection ≡ "off")
        ⊎ (env.attach r.contact.monitor r.contact.floating ≡ returns tt)
    pub mode_set :
        env.node.declare_text "arbitration_mode" "disabled" ≡ returns (mode_name r.arbitration)
    pub scale_applied : load_scale env ≡ returns r.speed_scale
    pub not_stopped : env.stop_in_setup ≡ false
    pub status_told : (r.status ≡ 0) ↔ (env.link_run ≡ returns tt)

  -- The arm is driven only when the driver is ready for it (IsReady): the arguments were read, the
  -- model has come, has its arm joints and the gripper's, and names them in this order; the
  -- simulator was asked for or an address given to a driver built for the arm; the contact
  -- configuration is sound and, unless detection is off, attached; the arbitration mode is the
  -- parameter's; core has accepted the startup speed scale; no signal has come. The exit status is
  -- then 0 exactly when the run ends without a configuration error.
  pub driven-IsReady :
      (args : List String) (r : Drive W S) → main env args ≡ continues r → IsReady args r
  unfolding main
  driven-IsReady args r e = after_step (parse_args env.numerals args) _ e λ o read e₁.
      after_step (fetch_model env.description env.ok_after_wait) _ e₁ λ xml fetched e₂.
        after_step (caught (load_model env o xml)) _ e₂ λ js named e₃.
          after_step (choose_transport env.has_kortex o) _ e₃ λ t chosen e₄.
            after_step (not_caught env.transport) _ e₄ λ _ _ f₄.
              after_step (caught (load_contact env)) _ f₄ λ c sound g₅.
                after_step (not_caught env.backend) _ g₅ λ _ _ e₅.
                  after_step (not_caught (env.node.declare_text "arbitration_mode" "disabled")) _ e₅
                    λ text declared e₆. after_step (choose_mode text) _ e₆ λ mode moded e₇.
                      after_step (not_caught (env.node.declare_flag "expect_gripper" true)) _ e₇
                        λ g _ e₈. after_step (not_caught env.supervisor) _ e₈ λ _ _ e₉.
                          after_step (caught (load_scale env)) _ e₉ λ p scaled e₁₀.
                            after_step (check_stop env.stop_in_setup) _ e₁₀ λ s free e₁₁.
                              let same : drive env o xml js t c mode g p ≡ r = cc e₁₁ in
                              let (is_sound, attached) =
                                load_contact_lem c (caught_lem _ c sound) in
                              subst (IsReady args) same (record {
                                options_read = read;
                                model_fetched = fetch_model_lem _ _ xml fetched;
                                joints_named = load_model_lem o xml js (caught_lem _ js named);
                                transport_chosen = choose_transport_lem _ o t chosen;
                                contact_sound = is_sound;
                                contact_attached = attached;
                                mode_set =
                                    not_caught_lem _ text declared
                                    ∙ ap returns (choose_mode_lem text mode moded);
                                scale_applied = caught_lem _ p scaled;
                                not_stopped = check_stop_lem _ s free;
                                status_told = run_status_lem env.link_run;
                              })
