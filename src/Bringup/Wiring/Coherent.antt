-- ===== src/Bringup/Wiring/Coherent.antt =====
-- What main hands the parts of the driver agrees.
use mathlib.Core.Path.{subst}
use text.Mathlib.TextEquality.{eq_iff}
use kinova_gen3_ros.Common.{
  ℕ, ◌-◌, ◌≤◌, ◌≡◌, ◌≢◌, ◌↔◌, inl, inr, refl, sym, ap, ◌∙◌, Bool, true, List, [], ◌∷◌, ◌++◌, some,
  length, string_eq, arith,
}
use kinova_gen3_ros.Common.Text.{String}
use kinova_gen3_ros.Common.Int.{ℤ, pos}
use kinova_gen3_ros.Common.Results.{Result, returns}
use kinova_gen3_ros.Externals.{Double}
use kinova_gen3_ros.Driver.{num_joints}
use kinova_gen3_ros.Contact.Params.{ContactNodeConfig}
use kinova_gen3_ros.Description.{gripper_joint}
use kinova_gen3_ros.Bringup.{continues}
use kinova_gen3_ros.Bringup.Startup.{Environment, Drive, Transport, sim, kortex, kortex_prio, main}
use kinova_gen3_ros.Bringup.Startup.Ready.{IsChosen, driven-IsReady}
use kinova_gen3_ros.Bringup.Wiring.{Wiring, wire, first, monitor_of, device, executor_config}

-- The model is reduced to the arm's seven joints.
abbrev pub SevenJoints : (String → String → Result (List String)) → Type 0
SevenJoints dynamics =
    (xml frame : String) (names : List String)
    → dynamics xml frame ≡ returns names
    → length names ≡ num_joints

first_lem : (names rest : List String) → first (length names) (names ++ rest) ≡ some names
unfolding first
first_lem [] rest = refl
first_lem (x ∷ names) rest = rw (first_lem names rest) refl

kortex_prio_lem : (prio : ℤ) (p : ℕ) → 2 ≤ p → prio ≡ pos p → kortex_prio prio ≡ pos (p - 1)
unfolding kortex_prio
kortex_prio_lem prio p two e = rw e (ground (arith, two))

first_num_joints :
    (names js rest : List String)
    → length names ≡ num_joints
    → js ≡ names ++ rest
    → first num_joints js ≡ some names
first_num_joints names js rest seven named =
    subst (λ n. first n js ≡ some names) seven
      (ap (first (length names)) named ∙ first_lem names rest)

module _ {W : Type 0} where
  -- The monitor is the executor's, the supervisor's and cleared by /clear_faults, or no one's.
  pub record IsMonitored (c : ContactNodeConfig W) (w : Wiring W) : Type 0 where
    pub executor_has : (w.attached ≡ some (c.monitor, c.floating)) ↔ (c.detection ≢ "off")
    pub supervisor_has : (w.deps.contact ≡ some c.monitor) ↔ (c.detection ≢ "off")
    pub cleared : (w.clears_contact ≡ true) ↔ (c.detection ≢ "off")
    pub same_ceiling : c.monitor.ceiling ≡ w.deps.contact_profiles.ceiling

  -- Both status topics name the simulator, or the address that the transport connects to; its thread
  -- is on the core of the RT loop and below it, when a priority below it is left.
  abbrev pub IsReached : Transport → Wiring W → Type 0
  IsReached sim w = (w.arbitration_device ≡ "sim") × (w.link_device ≡ "sim")
  IsReached (kortex address priority cpu) w =
      (w.arbitration_device ≡ address)
      × (w.link_device ≡ address)
      × (cpu ≡ w.executor.cpu)
      × ((p : ℕ) → 2 ≤ p → w.executor.priority ≡ pos p → priority ≡ pos (p - 1))

  -- Every server names the model's joints, in the order of the model.
  abbrev pub NamesArm : List String → List String → Wiring W → Type 0
  NamesArm names js_names w =
      (w.arm_joints ≡ names)
      × (w.contact_joints ≡ some names)
      × (js_names ≡ names ++ (gripper_joint ∷ []))

  monitor_of-IsMonitored :
      {S : Type 0} (names : List String) (r : Drive W S)
      → r.contact.monitor.ceiling ≡ r.contact.profiles.ceiling
      → IsMonitored r.contact (wire names r)
  unfolding wire monitor_of
  monitor_of-IsMonitored names r same = record {
    executor_has = ground (arith, eq_iff r.contact.detection "off");
    supervisor_has = ground (arith, eq_iff r.contact.detection "off");
    cleared = ground (arith, eq_iff r.contact.detection "off");
    same_ceiling = same;
  }

  chosen-IsReached :
      {S : Type 0} (has_kortex : Bool) (names : List String) (r : Drive W S) (t : Transport)
      → IsChosen has_kortex r.options t
      → IsReached t (wire names r)
  unfolding wire device executor_config
  chosen-IsReached has_kortex names r t chosen = elim chosen [
    | inl (simulated, e) ↦
        subst (λ t. IsReached t (wire names r)) (sym e) (rw simulated (refl, refl))
    | inr (real, _, _, e) ↦
        subst (λ t. IsReached t (wire names r)) (sym e)
          (rw real (refl, refl, refl, kortex_prio_lem r.options.prio))
  ]

module _ {W S : Type 0} ⦃d : Double W⦄ (env : Environment W S) where
  -- When main drives the arm, and core reduces every model to the arm's seven joints, what it hands
  -- its parts agrees: the goal servers compare a plan's joint names with the model's, the contact
  -- server has these same seven names, and /joint_states names them first, in this order, and then
  -- the gripper's; unless detection is off, one contact monitor is attached to the executor, known to
  -- the supervisor and cleared by /clear_faults, and with detection off none is; the supervisor's
  -- profiles have the monitor's ceiling; both latched status topics name the simulator, or the
  -- address that the transport connects to; and the transport's thread is on the core of the RT loop,
  -- one priority below it when that is at least 2.
  pub wiring_coherent :
      (seven : SevenJoints env.dynamics) (args : List String) (r : Drive W S)
      → main env args ≡ continues r
      → (names : List String) × (env.dynamics r.model r.options.ee_frame ≡ returns names)
        × NamesArm names r.js_names (wire names r)
        × IsMonitored r.contact (wire names r)
        × IsReached r.transport (wire names r)
  unfolding wire
  wiring_coherent seven args r e =
      let ready = driven-IsReady env args r e in
      let (names, loaded, _, named) = ready.joints_named in
      (
        names,
        loaded,
        (refl, first_num_joints names r.js_names _ (seven _ _ names loaded) named, named),
        monitor_of-IsMonitored names r ready.contact_sound.monitor.1,
        chosen-IsReached env.has_kortex names r r.transport ready.transport_chosen,
      )
