-- ===== src/Backend/Goals.antt =====
-- ros2_backend.cpp: handle_goal, and the handles over a history of calls.
use kinova_gen3_ros.Common.{
  ℕ, ◌≡◌, ◌+◌, refl, sym, ap, ◌∙◌, ◌↔◌, ◌⊎◌, ◌≢◌, Bool, true, false, List, [], ◌∷◌, Option, none,
  some, ◌==◌, ℕ_eq, arith, Bool-cases, inl, inr, if_yes, if_no, if◌then◌else◌, update,
}
use mathlib.Core.Path.{subst}
use kinova_gen3_ros.Common.Text.{String}
use kinova_gen3_ros.Driver.{GoalId, TrajectoryFeedback, TrajectoryResult, latched}
use kinova_gen3_ros.Messages.{JointTrajectoryPoint, ExecuteGoal}
use kinova_gen3_ros.Externals.{Double, Packages}
use kinova_gen3_ros.Mapping.Gains.{to_trajectory_goal, mode_gains_rejection}
use kinova_gen3_ros.Mapping.Limits.{speed_scale_rejection, contact_rejection, contact_refused_iff}
use kinova_gen3_ros.Mapping.Names.{
  goal_joint_names_rejection, TolerancesNamed, goal_names_accepted_iff,
}
use kinova_gen3_ros.PlannedMove.Plans.{Sized, is_some_lem}
use kinova_gen3_ros.Backend.{
  CommandSink, handle_goal, all_wide, Entry, Call, trajectory_accepted, trajectory_cancel, feedback,
  terminal, Backend, handle_cancel, handle_accepted, publish_feedback, settle, mark_canceling,
  token_of, feed_handle, settle_handle,
}

all_wide-Sized : {W : Type 0} (ps : List (JointTrajectoryPoint W)) → (all_wide ps ≡ true) ↔ Sized ps
unfolding all_wide
all_wide-Sized [] = ground arith
all_wide-Sized (p ∷ ps) = ground (arith, all_wide-Sized ps)

module _ {W : Type 0} ⦃d : Double W⦄ ⦃k : Packages W⦄ where
  -- A trajectory goal is executed exactly when it has points, each with one position for each
  -- joint, it and its tolerance lists name the arm's joints in chain order, its speed scale and its
  -- mode with its gains are acceptable, no contact stop is latched with detection on, and the
  -- supervisor accepts the goal that it is mapped to.
  pub goal_executed_iff :
      (arm : List String) (sink : CommandSink W) (g : ExecuteGoal W)
      → (handle_goal arm (some sink) g ≡ true) ↔ (
          (g.trajectory.points ≢ [])
          × Sized g.trajectory.points
          × ((g.trajectory.joint_names ≡ arm)
              × TolerancesNamed arm g.path_tolerance
              × TolerancesNamed arm g.goal_tolerance)
          × (speed_scale_rejection g.speed_scale ≡ none)
          × (mode_gains_rejection g.control_mode g.gains ≡ none)
          × ((sink.query_contact.enabled ≡ false) ⊎ (sink.query_contact.status.phase ≢ latched))
          × (sink.trajectory_goal (to_trajectory_goal g) ≡ true))
  unfolding handle_goal
  goal_executed_iff arm sink g = ground (
    arith,
    all_wide-Sized g.trajectory.points,
    goal_names_accepted_iff g arm,
    is_some_lem (goal_joint_names_rejection g arm),
    is_some_lem (speed_scale_rejection g.speed_scale),
    is_some_lem (mode_gains_rejection g.control_mode g.gains),
    is_some_lem (contact_rejection sink.query_contact),
    contact_refused_iff sink.query_contact,
  )

-- What happens to the backend's goals.
pub data Event (W : Type 0) : Type 0 where
  accepts : GoalId → ExecuteGoal W → Event W
  cancels : Option (CommandSink W) → GoalId → Event W
  feeds : GoalId → TrajectoryFeedback W → Event W
  settles : GoalId → TrajectoryResult W → Event W

module _ {W : Type 0} where
  -- The goal that a history, newest event first, leaves live under an identifier.
  abbrev pub live : GoalId → List (Event W) → Option (ExecuteGoal W)
  live id [] = none
  live id (accepts j g ∷ h) = if j == id then some g else live id h
  live id (cancels s j ∷ h) = live id h
  live id (feeds j fb ∷ h) = live id h
  live id (settles j r ∷ h) = if j == id then none else live id h

  abbrev pub is_live : Option (ExecuteGoal W) → ℕ
  is_live none = 0
  is_live (some _) = 1

  -- How often a goal was accepted under an identifier.
  abbrev pub acceptances : GoalId → List (Event W) → ℕ
  acceptances id [] = 0
  acceptances id (accepts j g ∷ h) = (if j == id then 1 else 0) + acceptances id h
  acceptances id (cancels s j ∷ h) = acceptances id h
  acceptances id (feeds j fb ∷ h) = acceptances id h
  acceptances id (settles j r ∷ h) = acceptances id h

  -- No identifier is accepted again while its goal lives.
  abbrev pub Fresh : List (Event W) → Type 0
  Fresh [] = Unit
  Fresh (accepts j g ∷ h) = (live j h ≡ none) × Fresh h
  Fresh (cancels s j ∷ h) = Fresh h
  Fresh (feeds j fb ∷ h) = Fresh h
  Fresh (settles j r ∷ h) = Fresh h

  -- The terminals made under an identifier.
  abbrev pub terminals : GoalId → List (Call W) → ℕ
  terminals id [] = 0
  terminals id (terminal j t m ∷ cs) = (if j == id then 1 else 0) + terminals id cs
  terminals id (trajectory_accepted j tg ∷ cs) = terminals id cs
  terminals id (trajectory_cancel j t ∷ cs) = terminals id cs
  terminals id (feedback j m ∷ cs) = terminals id cs

  -- The entry of a goal, for its handle and token.
  Entered : Option (Entry W) → Option (ExecuteGoal W) → Type 0
  Entered none none = Unit
  Entered (some e) (some g) = e.token ≡ g.token
  Entered none (some g) = ⊥
  Entered (some e) none = ⊥

module _ {W : Type 0} ⦃d : Double W⦄ ⦃k : Packages W⦄ where
  pub step : Event W → Backend W → Backend W
  unfolding handle_accepted handle_cancel publish_feedback settle
  step (accepts id g) b = handle_accepted id g b
  step (cancels s id) b = (handle_cancel s id b).0
  step (feeds id fb) b = publish_feedback id fb b
  step (settles id r) b = settle id r b

  pub after : List (Event W) → Backend W
  after [] = record { handles = λ _. none; log = [] }
  after (e ∷ h) = step e (after h)

  -- A backend that holds what a history leaves live.
  abbrev Holds : Backend W → (GoalId → Option (ExecuteGoal W)) → Type 0
  Holds b l = (id : GoalId) → Entered (b.handles id) (l id)

  update-Entered :
      (f : GoalId → Option (Entry W)) (l : GoalId → Option (ExecuteGoal W)) (j id : GoalId)
      (en : Option (Entry W)) (l' : Option (ExecuteGoal W))
      → Entered en l'
      → Entered (f id) (l id)
      → Entered (update f j en id) (if j == id then l' else l id)
  update-Entered f l j id en l' y n = elim (Bool-cases (j == id)) [
    | inl e ↦ rw (if_yes en (f id) e, if_yes l' (l id) e) y
    | inr e ↦ rw (if_no en (f id) e, if_no l' (l id) e) n
  ]

  mark-Entered :
      (s : Bool) (en : Option (Entry W)) (l : Option (ExecuteGoal W))
      → Entered en l
      → Entered (mark_canceling s en) l
  unfolding Entered
  mark-Entered s none none h = h
  mark-Entered s none (some g) h = h
  mark-Entered s (some e) none h = absurd h
  mark-Entered true (some e) (some g) h = h
  mark-Entered false (some e) (some g) h = h

  feed-Entered :
      (j : GoalId) (fb : TrajectoryFeedback W) (en : Option (Entry W)) (b : Backend W)
      (l : GoalId → Option (ExecuteGoal W))
      → Holds b l
      → Holds (feed_handle j fb en b) l
  feed-Entered j fb none b l h = h
  feed-Entered j fb (some e) b l h = h

  settle-Entered :
      (j : GoalId) (r : TrajectoryResult W) (en : Option (Entry W)) (b : Backend W)
      (l : GoalId → Option (ExecuteGoal W))
      → b.handles j ≡ en
      → Holds b l
      → Holds (settle_handle j r en b) (λ id. if j == id then none else l id)
  unfolding Entered
  settle-Entered j r none b l q h id = elim (Bool-cases (j == id)) [
    | inl e ↦ rw (if_yes none (l id) e) (
        subst (λ en. Entered en none) (sym (ap b.handles (sym ((ℕ_eq.equals_iff j id).0 e)) ∙ q))
          tt)
    | inr e ↦ rw (if_no none (l id) e) (h id)
  ]
  settle-Entered j r (some e) b l q h id = update-Entered b.handles l j id none none tt (h id)

  -- The handles are those of the live goals, each with its goal's token.
  after-Entered : (h : List (Event W)) (id : GoalId) → Entered ((after h).handles id) (live id h)
  unfolding after step handle_accepted handle_cancel publish_feedback settle Entered
      to_trajectory_goal
  after-Entered [] id = tt
  after-Entered (accepts j g ∷ h) id =
      update-Entered (after h).handles (λ i. live i h) j id _ (some g) refl (after-Entered h id)
  after-Entered (cancels none j ∷ h) id = after-Entered h id
  after-Entered (cancels (some s) j ∷ h) id =
      let accepted = s.trajectory_cancel j (token_of ((after h).handles j)) in
      elim (Bool-cases (j == id)) [
        | inl e ↦ rw (if_yes _ ((after h).handles id) e) (
            subst (λ i. Entered (mark_canceling accepted ((after h).handles j)) (live i h))
              ((ℕ_eq.equals_iff j id).0 e) (mark-Entered accepted _ _ (after-Entered h j)))
        | inr e ↦ rw (if_no _ ((after h).handles id) e) (after-Entered h id)
      ]
  after-Entered (feeds j fb ∷ h) id =
      feed-Entered j fb ((after h).handles j) (after h) (λ i. live i h) (after-Entered h) id
  after-Entered (settles j r ∷ h) id =
      settle-Entered j r ((after h).handles j) (after h) (λ i. live i h) refl (after-Entered h) id

  token_of-Entered :
      (en : Option (Entry W)) (l : Option (ExecuteGoal W)) (g : ExecuteGoal W)
      → l ≡ some g
      → Entered en l
      → token_of en ≡ g.token
  unfolding Entered
  token_of-Entered none none g e h = cc
  token_of-Entered none (some g') g e h = absurd h
  token_of-Entered (some en) none g e h = absurd h
  token_of-Entered (some en) (some g') g e h = ground (arith, e, h)

  -- A cancel carries the goal's authority: after any history that leaves a goal live, a cancel of
  -- it that finds a command sink asks the supervisor to cancel that goal with the very token the
  -- goal was accepted with.
  pub cancel_replays_token :
      (h : List (Event W)) (id : GoalId) (g : ExecuteGoal W) (sink : CommandSink W)
      → live id h ≡ some g
      → (handle_cancel (some sink) id (after h)).0.log
        ≡ trajectory_cancel id g.token ∷ (after h).log
  unfolding handle_cancel
  cancel_replays_token h id g sink e =
      ap (λ t. trajectory_cancel id t ∷ (after h).log)
        (token_of-Entered _ _ g e (after-Entered h id))

  -- What one settle adds to the terminals of a goal.
  settle_handle-terminals :
      (id j : GoalId) (r : TrajectoryResult W) (en : Option (Entry W)) (b : Backend W)
      (l : Option (ExecuteGoal W)) (n : ℕ)
      → Entered en l
      → terminals id b.log + (if j == id then is_live l else n)
        ≡ terminals id (settle_handle j r en b).log + (if j == id then 0 else n)
  unfolding Entered
  settle_handle-terminals id j r none b none n h = ground arith
  settle_handle-terminals id j r none b (some g) n h = absurd h
  settle_handle-terminals id j r (some e) b none n h = absurd h
  settle_handle-terminals id j r (some e) b (some g) n h = elim (Bool-cases (j == id)) [
    | inl y ↦ rw (if_yes _ _ y) (ground (arith, y))
    | inr y ↦ rw (if_no _ _ y) (ground (arith, y))
  ]

  feed_handle-terminals :
      (id j : GoalId) (fb : TrajectoryFeedback W) (en : Option (Entry W)) (b : Backend W)
      → terminals id (feed_handle j fb en b).log ≡ terminals id b.log
  feed_handle-terminals id j fb none b = refl
  feed_handle-terminals id j fb (some e) b = refl

  live-same : (id j : GoalId) (h : List (Event W)) → (j == id) ≡ true → live j h ≡ live id h
  live-same id j h e = ap (λ i. live i h) ((ℕ_eq.equals_iff j id).0 e)

  -- Every accepted goal has exactly one fate: over a history in which no identifier is accepted
  -- again while its goal lives, the terminals made for an identifier and the goal still live under
  -- it add up to the goals accepted under it; so a goal is never terminaled twice, and a settled
  -- goal never lacks its terminal.
  pub terminals_match_acceptances :
      (h : List (Event W)) (id : GoalId)
      → Fresh h
      → terminals id (after h).log + is_live (live id h) ≡ acceptances id h
  unfolding after step handle_accepted handle_cancel publish_feedback settle
  terminals_match_acceptances [] id f = ground arith
  terminals_match_acceptances (accepts j g ∷ h) id f = elim (Bool-cases (j == id)) [
    | inl e ↦
        rw (if_yes _ _ e)
          (ground (arith, e, f.0, live-same id j h e, terminals_match_acceptances h id f.1))
    | inr e ↦ rw (if_no _ _ e) (ground (arith, e, terminals_match_acceptances h id f.1))
  ]
  terminals_match_acceptances (cancels none j ∷ h) id f = terminals_match_acceptances h id f
  terminals_match_acceptances (cancels (some s) j ∷ h) id f = terminals_match_acceptances h id f
  terminals_match_acceptances (feeds j fb ∷ h) id f =
      ap (λ n. n + is_live (live id h))
        (feed_handle-terminals id j fb ((after h).handles j) (after h))
      ∙ terminals_match_acceptances h id f
  terminals_match_acceptances (settles j r ∷ h) id f = elim (Bool-cases (j == id)) [
    | inl e ↦
        rw (if_yes _ _ e)
          (ground (arith, e, live-same id j h e, terminals_match_acceptances h id f, paid))
    | inr e ↦ rw (if_no _ _ e) (ground (arith, e, terminals_match_acceptances h id f, paid))
  ]
    where
      paid :
          terminals id (after h).log + (if j == id then is_live (live j h) else 0)
          ≡ terminals id (settle_handle j r ((after h).handles j) (after h)).log
            + (if j == id then 0 else 0)
      paid =
          settle_handle-terminals id j r ((after h).handles j) (after h) (live j h) 0
            (after-Entered h j)
