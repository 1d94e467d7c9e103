-- ===== src/GoTo/Plans/Visits.antt =====
-- GoToEEPoses from its request to the blend: the legs that are blended visit the targets.
use mathlib.Core.Path.{subst}
use kinova_gen3_ros.Common.{
  ℕ, zero, suc, ◌≤◌, ◌<◌, ◌≡◌, ◌⊎◌, inl, inr, refl, sym, ap, true, false, Bool, List, [], ◌∷◌,
  Option, none, some, length, get_elem?, arith,
}
use kinova_gen3_ros.Common.Text.{String}
use kinova_gen3_ros.Messages.{JointTrajectory}
use kinova_gen3_ros.Externals.{Double, Packages}
use kinova_gen3_ros.Planner.{dispatch, fire}
use kinova_gen3_ros.Planner.Holds.{Checked, ok, throws, PoseGoal, plan, to_planner}
use kinova_gen3_ros.Legs.{World, Action, asks_cancel, plans, blends, done, snoc}
use kinova_gen3_ros.Legs.Order.{legs_upto, IsPlan, AllPlanned, AllSound, plan_legs_sound}
use kinova_gen3_ros.GoTo.{Pose, PoseTarget}
use kinova_gen3_ros.GoTo.Plans.{
  CuroboServers, canceling, start_config, ask_pose, pose_leg, poses_world, start_ee_poses,
  outcome_of,
}

Checked-cases : (c : Checked ℕ) → ((h : ℕ) × (c ≡ ok h)) ⊎ ((why : String) × (c ≡ throws why))
Checked-cases (ok h) = inl (h, refl)
Checked-cases (throws why) = inr (why, refl)

-- The first `k` of a list.
firsts {ℓ} : {A : Type ℓ} → ℕ → List A → List A
firsts zero xs = []
firsts (suc k) [] = []
firsts (suc k) (x ∷ xs) = x ∷ firsts k xs

firsts-length {ℓ} : {A : Type ℓ} (xs : List A) → firsts (length xs) xs ≡ xs
unfolding firsts
firsts-length [] = refl
firsts-length (x ∷ xs) = ap (λ ys. x ∷ ys) (firsts-length xs)

firsts-snoc {ℓ} :
    {A : Type ℓ} (k : ℕ) (xs : List A) (a : A)
    → get_elem? xs k ≡ some a
    → firsts (suc k) xs ≡ snoc (firsts k xs) a
unfolding firsts
firsts-snoc zero [] a e = absurd (cc e)
firsts-snoc zero (x ∷ xs) a e = cc e
firsts-snoc (suc k) [] a e = absurd (cc e)
firsts-snoc (suc k) (x ∷ xs) a e = ap (λ ys. x ∷ ys) (firsts-snoc k xs a e)

get_elem?-lt {ℓ} :
    {A : Type ℓ} (k : ℕ) (xs : List A) → k < length xs → (a : A) × (get_elem? xs k ≡ some a)
get_elem?-lt k [] h = absurd (omega arith)
get_elem?-lt zero (x ∷ xs) h = (x, refl)
get_elem?-lt (suc k) (x ∷ xs) h = get_elem?-lt k xs (omega arith)

module _ {W T : Type 0} (Reaches : JointTrajectory W → T → Type 0) where
  -- As many legs as targets, each reaching its own.
  abbrev pub Visits : List (JointTrajectory W) → List T → Type 0
  Visits [] [] = Unit
  Visits [] (t ∷ ts) = ⊥
  Visits (l ∷ ls) [] = ⊥
  Visits (l ∷ ls) (t ∷ ts) = Reaches l t × Visits ls ts

  Visits-snoc :
      (ls : List (JointTrajectory W)) (ts : List T) (l : JointTrajectory W) (t : T)
      → Visits ls ts
      → Reaches l t
      → Visits (snoc ls l) (snoc ts t)
  Visits-snoc [] [] l t v r = (r, tt)
  Visits-snoc [] (u ∷ ts) l t v r = elim v [ ]
  Visits-snoc (m ∷ ls) [] l t v r = elim v [ ]
  Visits-snoc (m ∷ ls) (u ∷ ts) l t v r = (v.0, Visits-snoc ls ts l t v.1 r)

  module _ ⦃d : Double W⦄ (w : World W) (start : List W) (targets : List T) where
    -- When each planned leg reaches the target it was asked for, so do the legs of the chain.
    legs_upto-Visits :
        ((k : ℕ) (s : List W) (t : T)
          → get_elem? targets k ≡ some t
          → IsPlan (w.answer k s)
          → Reaches (w.answer k s).trajectory t)
        → AllPlanned w start (length targets)
        → (k : ℕ) → k ≤ length targets
        → Visits (legs_upto w start k) (firsts k targets)
    unfolding firsts
    legs_upto-Visits reach all zero h = tt
    legs_upto-Visits reach all (suc k) h =
        let (t, e) = get_elem?-lt k targets h in
        subst (Visits (legs_upto w start (suc k))) (sym (firsts-snoc k targets t e)) (
          Visits-snoc (legs_upto w start k) (firsts k targets) _ t
            (legs_upto-Visits reach all k (omega arith)) (reach k _ t e (all k h)))

  -- Every blend in a list of actions is of legs that visit the targets.
  abbrev pub AllVisit : List T → List (Action W) → Type 0
  AllVisit targets [] = Unit
  AllVisit targets (blends ls ∷ acts) = Visits ls targets × AllVisit targets acts
  AllVisit targets (_ ∷ acts) = AllVisit targets acts

  module _ ⦃d : Double W⦄ (w : World W) (start : List W) (targets : List T) where
    sound-AllVisit :
        (AllPlanned w start (length targets) → Visits (legs_upto w start (length targets)) targets)
        → (acts : List (Action W)) → AllSound w (length targets) start acts
        → AllVisit targets acts
    sound-AllVisit visit [] s = tt
    sound-AllVisit visit (asks_cancel ∷ acts) s = sound-AllVisit visit acts s.1
    sound-AllVisit visit (plans k q ∷ acts) s = sound-AllVisit visit acts s.1
    sound-AllVisit visit (done o ∷ acts) s = sound-AllVisit visit acts s.1
    sound-AllVisit visit (blends ls ∷ acts) s = (
      subst (λ l. Visits l targets) (sym ((s.0).0)) (visit ((s.0).1)),
      sound-AllVisit visit acts s.1,
    )

module _ {W : Type 0} ⦃d : Double W⦄ ⦃k : Packages W⦄ (servers : CuroboServers W)
    (Near : JointTrajectory W → Pose W → Type 0) where
  abbrev ReachesTarget : JointTrajectory W → PoseTarget W → Type 0
  ReachesTarget l t = Near l t.pose

  ask_pose-reaches :
      ((g : PoseGoal W (Pose W))
        → IsPlan (servers.plan_pose g)
        → Near (servers.plan_pose g).trajectory g.target)
      → (available : Bool) (n : ℕ) (pose : Pose W) (start : List W) (hold : ℕ)
      → IsPlan (ask_pose servers available n pose start hold)
      → Near (ask_pose servers available n pose start hold).trajectory pose
  unfolding ask_pose outcome_of plan dispatch fire
  ask_pose-reaches honest true n pose start hold e = elim (Checked-cases (to_planner k hold)) [
    | inl (h, known) ↦
        let sent : ask_pose servers true n pose start hold
            ≡ servers.plan_pose (record { target = pose; start_joints = start; hold = h }) =
          ground (arith, known) in
        subst (λ o. Near o.trajectory pose) (sym sent) (honest _ (subst IsPlan sent e))
    | inr (why, bad) ↦ absurd (ground (arith, e.0, bad))
  ]
  ask_pose-reaches honest false n pose start hold e = elim (Checked-cases (to_planner k hold)) [
    | inl (h, known) ↦ absurd (ground (arith, e.0, known))
    | inr (why, bad) ↦ absurd (ground (arith, e.0, bad))
  ]

  pose_leg-reaches :
      ((g : PoseGoal W (Pose W))
        → IsPlan (servers.plan_pose g)
        → Near (servers.plan_pose g).trajectory g.target)
      → (available : Bool) (n : ℕ) (start : List W) (found : Option (PoseTarget W))
      → (t : PoseTarget W) → found ≡ some t
      → IsPlan (pose_leg servers available n start found)
      → ReachesTarget (pose_leg servers available n start found).trajectory t
  pose_leg-reaches honest available n start none t e good = absurd (cc e)
  pose_leg-reaches honest available n start (some u) t e good =
      let same : u ≡ t = cc e in
      subst
        (ReachesTarget (ask_pose servers available n u.pose start u.orientation_hold).trajectory)
        same (ask_pose-reaches honest available n u.pose start u.orientation_hold good)

  -- When the planner's plans reach what they are asked for (`Near`, whatever that is: the plan of a
  -- pose that succeeds with points ends near it), then whatever blend GoToEEPoses asks for is of as
  -- many legs as the goal has targets, the k-th leg ending near the k-th target: none is left out,
  -- repeated or taken out of order, whenever the goal is canceled and whatever legs fail.
  pub blended_legs_visit :
      ((g : PoseGoal W (Pose W))
        → IsPlan (servers.plan_pose g)
        → Near (servers.plan_pose g).trajectory g.target)
      → (available : Bool) (targets : List (PoseTarget W)) (q : List W) (tracked : ℕ → Option Bool)
      → 0 < length targets
      → (acts : List (Action W)) → start_ee_poses servers available targets q tracked ≡ some acts
      → AllVisit ReachesTarget targets acts
  unfolding start_ee_poses poses_world
  blended_legs_visit honest available targets q tracked pos acts e =
      sound-AllVisit ReachesTarget w start targets
        (λ all.
          subst (Visits ReachesTarget (legs_upto w start (length targets))) (firsts-length targets)
            (legs_upto-Visits ReachesTarget w start targets
              (λ k s t found good.
                pose_leg-reaches honest available k s (get_elem? targets k) t found good)
              all (length targets) (omega arith)))
        acts (plan_legs_sound w (length targets) start pos acts e)
    where
      w : World W
      w = poses_world servers available targets (λ n. canceling (tracked n))

      start : List W
      start = start_config q
