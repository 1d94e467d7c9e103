-- ===== src/Tests/Servers.antt =====
-- Witnesses: the servers, the router and the planner's client after concrete histories.
use kinova_gen3_ros.Common.{ℕ, ◌≡◌, ◌↔◌, refl, true, List, [], ◌∷◌}
use kinova_gen3_ros.Common.Text.{String}
use kinova_gen3_ros.Arbitration.{
  ArbitrationSink, ArbitrationStatus, Callback, acquires, estops, ticks, EStop,
}
use kinova_gen3_ros.Arbitration as Arb
use kinova_gen3_ros.Arbitration.Sources.{asks}
use kinova_gen3_ros.Arbitration.Stop.{stopped_iff_asked}
use kinova_gen3_ros.Arbitration.Status.{Moment, calls, changes}
use kinova_gen3_ros.Tests.{thousandths, gen3, arbiter, arbiter-IsStoppable, unowned}

-- Two sources engage the stop, and one of them lets go.
abbrev engaged : String → EStop
engaged name = record { state = 1; source = name; clear_target = "" }

abbrev released : String → EStop
released name = record { state = 0; source = name; clear_target = "" }

abbrev stop_history : List (ℕ × Callback)
stop_history =
    (4, ticks)
    ∷ (3, estops (released "joystick"))
    ∷ (2, estops (engaged "gui"))
    ∷ (1, estops (engaged "joystick"))
    ∷ []

stopped_iff_asked_example :
    ((Arb.after arbiter 0 unowned stop_history).arb.estopped ≡ true)
    ↔ ((source : String) × (asks source stop_history ≡ true))
stopped_iff_asked_example =
    stopped_iff_asked arbiter arbiter-IsStoppable 0 unowned stop_history refl

-- Core has refused a command on its own.
abbrev counted : ArbitrationStatus → ArbitrationStatus
counted s = record s { rejected_count = 5 }

abbrev moments : List (Moment ArbitrationStatus)
moments =
    calls (6, estops (engaged "gui"))
    ∷ calls (5, ticks)
    ∷ changes counted
    ∷ calls (2, estops (engaged "joystick"))
    ∷ []
