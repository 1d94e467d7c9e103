-- ===== src/Tests/Wirings.antt =====
-- Witness: a start for the arm at an address, on the defaults.
use mathlib.Core.Path.{subst}
use kinova_gen3_ros.Common.{ℕ, ◌≡◌, refl, true, List, [], ◌∷◌, ◌++◌, length}
use kinova_gen3_ros.Common.Int.{to_int, pos, negsuc}
use kinova_gen3_ros.Common.Results.{returns}
use kinova_gen3_ros.Common.Text.{String}
use kinova_gen3_ros.Arbitration.{disabled}
use kinova_gen3_ros.Driver.{num_joints}
use kinova_gen3_ros.Description.{gripper_joint, joint_state_names}
use kinova_gen3_ros.Contact.Params.{
  declare_contact_params, declare_detection, declare_gain, declare_debounce, declare_profiles,
  check_profiles, check_named, check_thresholds, declare_floating, declare_vec,
  require_non_negative,
}
use kinova_gen3_ros.Speed.{start_scale}
use kinova_gen3_ros.Bringup.{continues, parse_args, defaults}
use kinova_gen3_ros.Bringup.Startup.{
  Environment, Drive, kortex, kortex_prio, main, drive, fetch_model, load_model, choose_transport,
  load_contact, choose_mode, load_scale, check_stop, speed_cap_of, attach_contact,
}
use kinova_gen3_ros.Bringup.Wiring.{wire}
use kinova_gen3_ros.Bringup.Wiring.Coherent.{
  SevenJoints, NamesArm, IsMonitored, IsReached, wiring_coherent,
}
use kinova_gen3_ros.Tests.{thousandths, arm_names}
use kinova_gen3_ros.Tests.Devices.{default_config}
use kinova_gen3_ros.Tests.Startup.{environment, numerals}

abbrev with_arm : Environment ℕ ℕ
with_arm = record environment { has_kortex = true }

abbrev address_given : List String
address_given = "--ip" ∷ "10.0.0.1" ∷ []

abbrev driven : Drive ℕ ℕ
driven =
    drive with_arm (record (defaults numerals) { ip = "10.0.0.1" }) "<robot/>"
      (arm_names ++ (gripper_joint ∷ [])) (kortex "10.0.0.1" (pos 79) (negsuc 0)) default_config
      disabled true (record { value = 1000; core = 1000 })

real_arm_driven : main with_arm address_given ≡ continues driven
unfolding main parse_args fetch_model load_model joint_state_names choose_transport kortex_prio
    load_contact declare_contact_params choose_mode load_scale start_scale check_stop
    declare_detection declare_gain declare_debounce declare_profiles check_profiles check_named
    check_thresholds declare_floating declare_vec require_non_negative to_int speed_cap_of
    attach_contact
real_arm_driven = refl

arm_names-SevenJoints : SevenJoints with_arm.dynamics
arm_names-SevenJoints xml frame names e =
    let same : arm_names ≡ names = cc e in subst (λ n. length n ≡ num_joints) same refl

wiring_coherent_example :
    (names : List String) × (returns arm_names ≡ returns names)
    × NamesArm names driven.js_names (wire names driven)
    × IsMonitored driven.contact (wire names driven)
    × IsReached driven.transport (wire names driven)
wiring_coherent_example =
    wiring_coherent with_arm arm_names-SevenJoints address_given driven real_arm_driven
