-- ===== src/Planner/Holds.antt =====
-- curobo_plan_client.cpp: to_planner, and the goals of plan(), plan_to_joints() and blend().
use kinova_gen3_ros.Common.{
  ℕ, ◌≡◌, refl, ◌⊎◌, ◌≢◌, Bool, List, [], ◌∷◌, Option, none, some, ◌==◌, ℕ_eq, if◌then◌else◌, arith,
  inl, inr, Bool-cases,
}
use kinova_gen3_ros.Common.Text.{String, ◌++◌, to_string}
use kinova_gen3_ros.Messages.{JointTrajectory}
use kinova_gen3_ros.Externals.{Double, Packages}
use kinova_gen3_ros.Planner.{Client, done, failure, dispatch}

-- A value, or the message of the exception.
pub data Checked {ℓ} (A : Type ℓ) : Type ℓ where
  ok : A → Checked A
  throws : String → Checked A

pub record PoseGoal (W P : Type 0) : Type 0 where
  pub target : P
  pub start_joints : List W
  pub hold : ℕ

pub record JointsGoal (W : Type 0) : Type 0 where
  pub target_joints : List W
  pub start_joints : List W

pub record BlendGoal (W Q : Type 0) : Type 0 where
  pub legs : List (JointTrajectory W)
  pub blend_radius : List W
  pub speed_scale : List W
  pub hold : List ℕ
  pub hold_orientation : List Q

module _ {W : Type 0} (k : Packages W) where
  unfoldable pub to_planner : ℕ → Checked ℕ
  to_planner hold =
      if hold == k.hold_none
      then ok k.planner_hold_none
      else if hold == k.hold_level
      then ok k.planner_hold_level
      else if hold == k.hold_fixed
      then ok k.planner_hold_fixed
      else throws ("unknown orientation hold mode " ++ to_string hold)

  push_hold : Checked ℕ → Checked (List ℕ) → Checked (List ℕ)
  push_hold (throws e) rest = throws e
  push_hold (ok h) (throws e) = throws e
  push_hold (ok h) (ok hs) = ok (h ∷ hs)

  -- The loop over the legs' holds; the first unknown one throws.
  unfoldable pub to_planner_all : List ℕ → Checked (List ℕ)
  unfolding to_planner push_hold
  to_planner_all [] = ok []
  to_planner_all (h ∷ hs) = push_hold (to_planner h) (to_planner_all hs)

-- What a call sends to an action server, if anything, and the client after it.
pub record Sent (W G : Type 0) : Type 0 where
  pub goal : Option G
  pub client : Client W

module _ {W : Type 0} ⦃d : Double W⦄ where
  -- The goal is sent if the action server is there.
  send : {G : Type 0} → ℕ → Bool → G → Client W → Sent W G
  send n available goal c = record {
    goal = if available then some goal else none;
    client = dispatch n available c;
  }

  -- `on_done({false, e.what(), {}, 0.0})`, called at once.
  refuse : {G : Type 0} → ℕ → String → Client W → Sent W G
  refuse n why c = record { goal = none; client = record c { log = done n (failure why) ∷ c.log } }

  unfoldable pub plan_to_joints : ℕ → Bool → List W → List W → Client W → Sent W (JointsGoal W)
  unfolding send
  plan_to_joints n available target start c =
      send n available (record { target_joints = target; start_joints = start }) c

  -- plan(), with a hold.
  unfoldable pub plan :
      ⦃k : Packages W⦄ {P : Type 0} → ℕ → Bool → P → List W → ℕ → Client W → Sent W (PoseGoal W P)
  unfolding send refuse to_planner
  plan ⦃k⦄ n available target start hold c = elim (to_planner k hold) [
    | throws why ↦ refuse n why c
    | ok h ↦ send n available (record { target = target; start_joints = start; hold = h }) c
  ]

  unfoldable pub blend :
      ⦃k : Packages W⦄ {Q : Type 0}
      → ℕ
      → Bool
      → List (JointTrajectory W)
      → List W
      → List W
      → List ℕ
      → List Q
      → Client W
      → Sent W (BlendGoal W Q)
  unfolding send refuse to_planner_all
  blend ⦃k⦄ n available legs radius scale holds orientations c = elim (to_planner_all k holds) [
    | throws why ↦ refuse n why c
    | ok hs ↦
        send n available
          (record {
            legs = legs;
            blend_radius = radius;
            speed_scale = scale;
            hold = hs;
            hold_orientation = orientations;
          })
          c
  ]

-- The table of holds, by name.
pub data HoldsAs {W : Type 0} (k : Packages W) (arm planner : ℕ) : Type 0 where
  free : arm ≡ k.hold_none → planner ≡ k.planner_hold_none → HoldsAs k arm planner
  level : arm ≡ k.hold_level → planner ≡ k.planner_hold_level → HoldsAs k arm planner
  fixed : arm ≡ k.hold_fixed → planner ≡ k.planner_hold_fixed → HoldsAs k arm planner

module _ {W : Type 0} (k : Packages W) where
  abbrev pub IsUnknown : ℕ → Type 0
  IsUnknown h = (h ≢ k.hold_none) × (h ≢ k.hold_level) × (h ≢ k.hold_fixed)

  abbrev pub AllHold : List ℕ → List ℕ → Type 0
  AllHold [] [] = Unit
  AllHold [] (x ∷ xs) = ⊥
  AllHold (h ∷ hs) [] = ⊥
  AllHold (h ∷ hs) (x ∷ xs) = HoldsAs k h x × AllHold hs xs

  abbrev pub SomeUnknown : List ℕ → Type 0
  SomeUnknown [] = ⊥
  SomeUnknown (h ∷ hs) = IsUnknown h ⊎ SomeUnknown hs

  to_planner_cases :
      (h : ℕ)
      → ((x : ℕ) × (to_planner k h ≡ ok x) × HoldsAs k h x)
        ⊎ ((why : String) × (to_planner k h ≡ throws why) × IsUnknown h)
  unfolding to_planner
  to_planner_cases h = elim (Bool-cases (h == k.hold_none)) [
    | inl e ↦ inl (k.planner_hold_none, ground arith, free (ground arith) refl)
    | inr e ↦ elim (Bool-cases (h == k.hold_level)) [
      | inl f ↦ inl (k.planner_hold_level, ground arith, level (ground arith) refl)
      | inr f ↦ elim (Bool-cases (h == k.hold_fixed)) [
        | inl g ↦ inl (k.planner_hold_fixed, ground arith, fixed (ground arith) refl)
        | inr g ↦ inr ("unknown orientation hold mode " ++ to_string h, ground arith, ground arith)
      ]
    ]
  ]

  to_planner_all_cases :
      (hs : List ℕ)
      → ((xs : List ℕ) × (to_planner_all k hs ≡ ok xs) × AllHold hs xs)
        ⊎ ((why : String) × (to_planner_all k hs ≡ throws why) × SomeUnknown hs)
  unfolding to_planner_all
  to_planner_all_cases [] = inl ([], refl, tt)
  to_planner_all_cases (h ∷ hs) = elim (to_planner_cases h) [
    | inr (why, e, u) ↦ inr (why, rw e, inl u)
    | inl (x, e, m) ↦ elim (to_planner_all_cases hs) [
      | inl (xs, es, ms) ↦ inl (x ∷ xs, rw (e, es), (m, ms))
      | inr (why, es, us) ↦ inr (why, rw (e, es), inr us)
    ]
  ]

module _ {W : Type 0} ⦃d : Double W⦄ ⦃k : Packages W⦄ {Q : Type 0} where
  -- A blend request either has every hold mapped onto the planner's constant of the same name, leg
  -- by leg, and is sent with the caller's legs, radii, speeds and orientations if the server is
  -- there; or some hold is unknown, and then nothing is sent and on_done is called once, at once,
  -- with a failure.
  pub blend_holds_by_name :
      (n : ℕ) (there : Bool) (legs : List (JointTrajectory W)) (radius scale : List W)
      (holds : List ℕ) (orientations : List Q) (c : Client W)
      → ((hs : List ℕ) × AllHold k holds hs
          × (blend n there legs radius scale holds orientations c ≡ record {
            goal =
                if there
                then some (record {
                  legs = legs;
                  blend_radius = radius;
                  speed_scale = scale;
                  hold = hs;
                  hold_orientation = orientations;
                })
                else none;
            client = dispatch n there c;
          }))
        ⊎ (SomeUnknown k holds
            × ((why : String) × (blend n there legs radius scale holds orientations c ≡ record {
              goal = none;
              client = record c { log = done n (failure why) ∷ c.log };
            })))
  unfolding blend
  blend_holds_by_name n there legs radius scale holds orientations c =
      elim (to_planner_all_cases k holds) [
        | inl (hs, e, m) ↦ inl (hs, m, rw (e, blend))
        | inr (why, e, u) ↦ inr (u, (why, rw (e, blend)))
      ]
