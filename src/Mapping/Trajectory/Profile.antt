-- ===== src/Mapping/Trajectory/Profile.antt =====
-- message_mapping.cpp: what a trajectory mapped by fill_trajectory carries.
use kinova_gen3_ros.Common.{
  suc, is_empty_iff, ◌≡◌, refl, ap, ap₂, ◌↔◌, ◌≢◌, Bool, true, not, ◌&&◌, List, [], ◌∷◌, map,
  length, is_empty, All, arith, length-map, if◌then◌else◌, ◌==◌, ℕ_eq,
}
use kinova_gen3_ros.Common.Int.{pos}
use kinova_gen3_ros.Driver.{num_joints, JointWaypoint, Trajectory}
use kinova_gen3_ros.Messages.{JointTrajectoryPoint}
use kinova_gen3_ros.Externals.{Double, Packages, IsDocumented}
use kinova_gen3_ros.Mapping.Trajectory.{
  copy_into, all_sized, to_waypoint, fill_trajectory, zero_vec, seconds,
}

pub length-copy_into {ℓ} : {A : Type ℓ} (vs src : List A) → length (copy_into vs src) ≡ length vs
unfolding copy_into
length-copy_into [] src = refl
length-copy_into (v ∷ vs) [] = refl
length-copy_into (v ∷ vs) (x ∷ src) = ap suc (length-copy_into vs src)

-- The bounded loop copies a source of the right size whole.
pub copy_into_whole {ℓ} :
    {A : Type ℓ} (vs src : List A) → length src ≡ length vs → copy_into vs src ≡ src
unfolding copy_into
copy_into_whole [] [] h = refl
copy_into_whole [] (x ∷ src) h = absurd (omega arith)
copy_into_whole (v ∷ vs) [] h = absurd (omega arith)
copy_into_whole (v ∷ vs) (x ∷ src) h = ap (◌∷◌ x) (copy_into_whole vs src (omega arith))

module _ {W : Type 0} where
  -- Every point carries `field` with one entry for each joint.
  abbrev pub Carried : (JointTrajectoryPoint W → List W) → List (JointTrajectoryPoint W) → Type 0
  Carried field = All (λ p. length (field p) ≡ num_joints)

  pub all_sized_iff :
      (field : JointTrajectoryPoint W → List W) (acc : Bool) (ps : List (JointTrajectoryPoint W))
      → (all_sized field acc ps ≡ true) ↔ ((acc ≡ true) × Carried field ps)
  unfolding all_sized
  all_sized_iff field acc [] = ground arith
  all_sized_iff field acc (p ∷ ps) =
      ground (arith, all_sized_iff field (acc && length (field p) == num_joints) ps)

module _ {W : Type 0} ⦃d : Double W⦄ ⦃k : Packages W⦄ where
  -- A trajectory mapped onto an empty one has as many waypoints as points. It claims a velocity
  -- profile exactly when there are points and every one carries 7 velocities, and accelerations
  -- exactly when besides that every point carries 7 accelerations.
  pub profile_claimed_iff :
      (ps : List (JointTrajectoryPoint W)) (tr : Trajectory W)
      → tr.points ≡ []
      → let out = fill_trajectory ps tr in
        (length out.points ≡ length ps)
        × ((out.has_velocities ≡ true) ↔ ((ps ≢ []) × Carried (λ p. p.velocities) ps))
        × ((out.has_accelerations ≡ true)
            ↔ ((ps ≢ []) × Carried (λ p. p.velocities) ps × Carried (λ p. p.accelerations) ps))
  unfolding fill_trajectory
  profile_claimed_iff [] tr e = ground arith
  profile_claimed_iff (p ∷ ps) tr e = (
    rw (e, length-map) refl,
    ground (arith, all_sized_iff (λ p. p.velocities) true (p ∷ ps)),
    ground (
      arith,
      all_sized_iff (λ p. p.velocities) true (p ∷ ps),
      all_sized_iff (λ p. p.accelerations) true (p ∷ ps),
    ),
  )

  -- The waypoint with the point's own lists in it, copied whole.
  abbrev pub exact_waypoint : Bool → Bool → JointTrajectoryPoint W → JointWaypoint W
  exact_waypoint with_velocities with_accelerations p = record {
    q = p.positions;
    t_s =
        d.add (d.of_ℤ p.time_from_start.sec)
          (d.mul (d.of_ℤ (pos p.time_from_start.nanosec)) (d.decimal 1 9));
    qd = if with_velocities then p.velocities else k.blank_rates;
    qdd = if with_accelerations then p.accelerations else k.blank_rates;
  }

  waypoint_exact :
      length k.blank_rates ≡ num_joints
      → (v a : Bool) (p : JointTrajectoryPoint W) → length p.positions ≡ num_joints
      → (v ≡ true → length p.velocities ≡ num_joints)
      → (a ≡ true → length p.accelerations ≡ num_joints)
      → to_waypoint v a p ≡ exact_waypoint v a p
  unfolding to_waypoint seconds
  waypoint_exact b v a p h hv ha = ground (
    arith,
    copy_into_whole zero_vec p.positions,
    copy_into_whole k.blank_rates p.velocities,
    copy_into_whole k.blank_rates p.accelerations,
  )

  waypoints_exact :
      length k.blank_rates ≡ num_joints
      → (v a : Bool) (ps : List (JointTrajectoryPoint W)) → Carried (λ p. p.positions) ps
      → (v ≡ true → Carried (λ p. p.velocities) ps)
      → (a ≡ true → Carried (λ p. p.accelerations) ps)
      → map (to_waypoint v a) ps ≡ map (exact_waypoint v a) ps
  waypoints_exact b v a [] h hv ha = refl
  waypoints_exact b v a (p ∷ ps) h hv ha =
      ap₂ ◌∷◌ (waypoint_exact b v a p h.0 (λ e. (hv e).0) (λ e. (ha e).0))
        (waypoints_exact b v a ps h.1 (λ e. (hv e).1) (λ e. (ha e).1))

  -- With the packages' defaults as documented, points that are all 7 wide are mapped onto an empty
  -- trajectory point by point with nothing filled in: each waypoint holds its point's positions and its
  -- time, seconds and nanoseconds; its velocities whole exactly when there are points and every one
  -- carries 7 of them, and its accelerations whole exactly when every one carries 7 of those; no
  -- bounded copy cuts or pads a list.
  pub fill_trajectory_exact :
      IsDocumented k
      → (ps : List (JointTrajectoryPoint W)) (tr : Trajectory W) → tr.points ≡ []
      → Carried (λ p. p.positions) ps
      → (v : Bool) × (a : Bool) × ((v ≡ true) ↔ ((ps ≢ []) × Carried (λ p. p.velocities) ps))
        × ((a ≡ true) ↔ ((ps ≢ []) × Carried (λ p. p.accelerations) ps))
        × ((fill_trajectory ps tr).points ≡ map (exact_waypoint v a) ps)
  unfolding fill_trajectory
  fill_trajectory_exact doc ps tr e h =
      let vels = all_sized_iff (λ p. p.velocities) (not (is_empty ps)) ps in
      let accs = all_sized_iff (λ p. p.accelerations) (not (is_empty ps)) ps in
      let some_points = is_empty_iff ps in
      (
        all_sized (λ p. p.velocities) (not (is_empty ps)) ps,
        all_sized (λ p. p.accelerations) (not (is_empty ps)) ps,
        ((λ t. (some_points.0 (vels.0 t).0, (vels.0 t).1)), λ t. vels.1 (some_points.1 t.0, t.1)),
        ((λ t. (some_points.0 (accs.0 t).0, (accs.0 t).1)), λ t. accs.1 (some_points.1 t.0, t.1)),
        rw e (waypoints_exact doc.rates_sized _ _ ps h (λ v. (vels.0 v).1) (λ a. (accs.0 a).1)),
      )
