-- ===== src/Tests/Messages.antt =====
-- Witnesses: the message mapping on concrete messages.
use kinova_gen3_ros.Common.{Bool, ◌≢◌, ℕ, ◌≡◌, ◌↔◌, refl, true, false, [], none, map}
use kinova_gen3_ros.Driver.{Trajectory}
use kinova_gen3_ros.Mapping.Trajectory.{fill_trajectory}
use kinova_gen3_ros.Mapping.Trajectory.Profile.{Carried, exact_waypoint, fill_trajectory_exact}
use kinova_gen3_ros.Mapping.Gains.{mode_gains_rejection}
use kinova_gen3_ros.Mapping.Gains.Admission.{Acceptable, mode_gains_accepted_iff}
use kinova_gen3_ros.Tests.{thousandths, gen3, gen3-IsDocumented, trajectory, no_gains}

abbrev empty_trajectory : Trajectory ℕ
empty_trajectory = record { points = []; has_velocities = false; has_accelerations = false }

fill_trajectory_exact_example :
    (v : Bool) × (a : Bool) × ((v ≡ true)
      ↔ ((trajectory.points ≢ []) × Carried (λ p. p.velocities) trajectory.points))
    × ((a ≡ true) ↔ ((trajectory.points ≢ []) × Carried (λ p. p.accelerations) trajectory.points))
    × ((fill_trajectory trajectory.points empty_trajectory).points
        ≡ map (exact_waypoint v a) trajectory.points)
fill_trajectory_exact_example =
    fill_trajectory_exact gen3-IsDocumented trajectory.points empty_trajectory refl
      (refl, (refl, tt))

mode_gains_accepted_iff_example : (mode_gains_rejection 1 no_gains ≡ none) ↔ Acceptable 1 no_gains
mode_gains_accepted_iff_example = mode_gains_accepted_iff 1 no_gains
