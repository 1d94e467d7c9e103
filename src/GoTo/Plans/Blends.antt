-- ===== src/GoTo/Plans/Blends.antt =====
-- goto_ee_poses_server.h: from an accepted request to the blend that cuRobo is sent.
use kinova_gen3_ros.Common.{
  ℕ, ◌≡◌, refl, ap, true, Bool, List, [], ◌∷◌, ◌++◌, map, none, All, length, arith, ℕ_eq, inl, inr,
}
use kinova_gen3_ros.Messages.{JointTrajectory}
use kinova_gen3_ros.Externals.{Double, Packages}
use kinova_gen3_ros.Planner.{idle}
use kinova_gen3_ros.Planner.Holds.{BlendGoal, AllHold, SomeUnknown, IsUnknown, blend_holds_by_name}
use kinova_gen3_ros.GoTo.{PoseTarget, known_hold, validate_ee_poses, radii}
use kinova_gen3_ros.GoTo.Targets.{PoseTargetFits, ee_poses_accepted_iff}
use kinova_gen3_ros.GoTo.Plans.{CuroboServers, poses_world, outcome_of}

module _ {W : Type 0} (k : Packages W) where
  known-IsUnknown : (h : ℕ) → known_hold k h ≡ true → IsUnknown k h → ⊥
  unfolding known_hold
  known-IsUnknown h e u = ground (arith, e, u)

module _ {W : Type 0} ⦃d : Double W⦄ ⦃k : Packages W⦄ where
  holds_known :
      (ts : List (PoseTarget W))
      → All PoseTargetFits ts
      → SomeUnknown k (map (λ t. t.orientation_hold) ts)
      → ⊥
  holds_known [] h u = u
  holds_known (t ∷ ts) h (inl u) = known-IsUnknown k t.orientation_hold h.0.3 u
  holds_known (t ∷ ts) h (inr u) = holds_known ts h.1 u

  radii_lem :
      (t : PoseTarget W) (ts : List (PoseTarget W))
      → (last : W) × (radii (λ t. t.blend_radius) (t ∷ ts) ++ (last ∷ [])
          ≡ map (λ t. t.blend_radius) (t ∷ ts))
  unfolding radii
  radii_lem t [] = (t.blend_radius, refl)
  radii_lem t (u ∷ ts) = let (last, e) = radii_lem u ts in (last, ap (λ l. t.blend_radius ∷ l) e)

  -- What the blend of a goal's legs carries: the legs, the planner's constant of the name of each
  -- target's hold, each target's radius but the last one's, and each target's speed and orientation,
  -- all in the order of the targets.
  pub record Blends (ts : List (PoseTarget W)) (legs : List (JointTrajectory W))
      (g : BlendGoal W (List W)) : Type 0 where
    pub all_legs : g.legs ≡ legs
    pub holds : AllHold k (map (λ t. t.orientation_hold) ts) g.hold
    pub radius : (last : W) × (g.blend_radius ++ (last ∷ []) ≡ map (λ t. t.blend_radius) ts)
    pub speeds : g.speed_scale ≡ map (λ t. t.speed_scale) ts
    pub orientations : g.hold_orientation ≡ map (λ t. (t.pose).orientation) ts

  -- When an accepted GoToEEPoses goal asks for its blend and cuRobo's server is there, the client
  -- refuses nothing: the outcome is the server's answer to one goal that carries the legs, the
  -- planner's constant of the name of each target's hold, each target's radius but the last one's,
  -- and each target's speed and orientation, in the order of the targets.
  pub accepted_poses_blend :
      (servers : CuroboServers W) (ts : List (PoseTarget W)) (asked : ℕ → Bool)
      (legs : List (JointTrajectory W))
      → validate_ee_poses ts ≡ none
      → (g : BlendGoal W (List W)) × ((poses_world servers true ts asked).blended legs
          ≡ servers.blend_legs g)
        × Blends ts legs g
  unfolding poses_world outcome_of
  accepted_poses_blend servers [] asked legs e = absurd (((ee_poses_accepted_iff []).0 e).0 refl)
  accepted_poses_blend servers (t ∷ ts) asked legs e =
      elim (blend_holds_by_name (length (t ∷ ts)) true legs (radii (λ t. t.blend_radius) (t ∷ ts))
        (map (λ t. t.speed_scale) (t ∷ ts)) (map (λ t. t.orientation_hold) (t ∷ ts))
        (map (λ t. (t.pose).orientation) (t ∷ ts)) idle) [
          | inl (hs, named, sent) ↦ (
            record {
              legs = legs;
              blend_radius = radii (λ t. t.blend_radius) (t ∷ ts);
              speed_scale = map (λ t. t.speed_scale) (t ∷ ts);
              hold = hs;
              hold_orientation = map (λ t. (t.pose).orientation) (t ∷ ts);
            },
            ap (outcome_of servers.blend_legs) sent,
            record {
              all_legs = refl;
              holds = named;
              radius = radii_lem t ts;
              speeds = refl;
              orientations = refl;
            },
          )
          | inr (u, _) ↦ absurd (holds_known (t ∷ ts) ((ee_poses_accepted_iff (t ∷ ts)).0 e).1 u)
        ]
