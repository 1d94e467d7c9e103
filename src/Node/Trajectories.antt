-- ===== src/Node/Trajectories.antt =====
-- ros2_backend.cpp as one of the router's ports: its handles and terminals under one identifier.
use kinova_gen3_ros.Common.{
  ℕ, ◌≡◌, ◌≤◌, ◌+◌, refl, sym, ap, ◌∙◌, Bool, true, false, Option, none, some, ◌==◌, ℕ_eq, arith,
  Bool-cases, inl, inr, if_yes,
}
use kinova_gen3_ros.Driver.{GoalId, TrajectoryFeedback, TrajectoryResult}
use kinova_gen3_ros.Messages.{ExecuteGoal}
use kinova_gen3_ros.Externals.{Double, Packages}
use kinova_gen3_ros.Backend.{
  Backend, Entry, CommandSink, handle_accepted, handle_cancel, publish_feedback, settle,
  mark_canceling, token_of, feed_handle, settle_handle,
}
use kinova_gen3_ros.Backend.Goals.{terminals}

module _ {W : Type 0} where
  -- Whether a handle is held, as a number.
  abbrev pub entered : Option (Entry W) → ℕ
  entered none = 0
  entered (some e) = 1

  -- Two backends that agree on what was accepted under an identifier: a handle may have given way
  -- to its terminal.
  pub record Follows (id : GoalId) (b c : Backend W) : Type 0 where
    pub total :
        entered (c.handles id) + terminals id c.log ≡ entered (b.handles id) + terminals id b.log
    pub fewer : entered (c.handles id) ≤ entered (b.handles id)

  pub same-Follows : (id : GoalId) (b : Backend W) → Follows id b b
  same-Follows id b = record { total = refl; fewer = omega arith }

  mark-entered : (s : Bool) (en : Option (Entry W)) → entered (mark_canceling s en) ≡ entered en
  mark-entered s none = refl
  mark-entered true (some e) = refl
  mark-entered false (some e) = refl

module _ {W : Type 0} ⦃d : Double W⦄ ⦃k : Packages W⦄ where
  settle_handle-Follows :
      (id j : GoalId) (r : TrajectoryResult W) (en : Option (Entry W)) (b : Backend W)
      → b.handles j ≡ en
      → Follows id b (settle_handle j r en b)
  settle_handle-Follows id j r none b e = same-Follows id b
  settle_handle-Follows id j r (some x) b e = elim (Bool-cases (j == id)) [
    | inl y ↦
        let here : entered (b.handles id) ≡ 1 =
          ap (λ i. entered (b.handles i)) (sym ((ℕ_eq.equals_iff j id).0 y)) ∙ ap entered e in
        record { total = ground (arith, y, here); fewer = ground (arith, y) }
    | inr n ↦ record { total = ground (arith, n); fewer = ground (arith, n) }
  ]

  feed_handle-Follows :
      (id j : GoalId) (fb : TrajectoryFeedback W) (en : Option (Entry W)) (b : Backend W)
      → Follows id b (feed_handle j fb en b)
  feed_handle-Follows id j fb none b = same-Follows id b
  feed_handle-Follows id j fb (some x) b = record { total = refl; fewer = omega arith }

  pub settle-Follows :
      (id j : GoalId) (r : TrajectoryResult W) (b : Backend W) → Follows id b (settle j r b)
  unfolding settle
  settle-Follows id j r b = settle_handle-Follows id j r (b.handles j) b refl

  settle_handle-entered :
      (id : GoalId) (r : TrajectoryResult W) (en : Option (Entry W)) (b : Backend W)
      → b.handles id ≡ en
      → entered ((settle_handle id r en b).handles id) ≡ 0
  settle_handle-entered id r none b e = ap entered e
  settle_handle-entered id r (some x) b e = ground arith

  -- A result leaves no handle under its identifier.
  pub settle-entered :
      (id : GoalId) (r : TrajectoryResult W) (b : Backend W)
      → entered ((settle id r b).handles id) ≡ 0
  unfolding settle
  settle-entered id r b = settle_handle-entered id r (b.handles id) b refl

  pub feed-Follows :
      (id j : GoalId) (fb : TrajectoryFeedback W) (b : Backend W)
      → Follows id b (publish_feedback j fb b)
  unfolding publish_feedback
  feed-Follows id j fb b = feed_handle-Follows id j fb (b.handles j) b

  pub accept-total :
      (id : GoalId) (g : ExecuteGoal W) (b : Backend W)
      → entered (b.handles id) + terminals id b.log ≡ 0
      → entered ((handle_accepted id g b).handles id) + terminals id (handle_accepted id g b).log
        ≡ 1
  unfolding handle_accepted
  accept-total id g b e = ground (arith, e)

  pub accept-other :
      (id j : GoalId) (g : ExecuteGoal W) (b : Backend W)
      → (j == id) ≡ false
      → Follows id b (handle_accepted j g b)
  unfolding handle_accepted
  accept-other id j g b n = record { total = ground (arith, n); fewer = ground (arith, n) }

module _ {W : Type 0} where
  pub cancel-Follows :
      (id j : GoalId) (sink : Option (CommandSink W)) (b : Backend W)
      → Follows id b (handle_cancel sink j b).0
  unfolding handle_cancel
  cancel-Follows id j none b = same-Follows id b
  cancel-Follows id j (some sink) b = elim (Bool-cases (j == id)) [
    | inl y ↦
        let here : entered
              (mark_canceling (sink.trajectory_cancel j (token_of (b.handles j))) (b.handles j))
            ≡ entered (b.handles id) =
          mark-entered _ (b.handles j)
          ∙ ap (λ i. entered (b.handles i)) ((ℕ_eq.equals_iff j id).0 y) in
        record {
          total = rw (if_yes _ (b.handles id) y) (omega (arith, here));
          fewer = rw (if_yes _ (b.handles id) y) (omega (arith, here));
        }
    | inr n ↦ record { total = ground (arith, n); fewer = ground (arith, n) }
  ]
