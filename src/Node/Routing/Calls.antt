-- ===== src/Node/Routing/Calls.antt =====
-- The supervisor's calls through the router keep the routing of every goal, and so does every
-- history.
use kinova_gen3_ros.Common.{
  ℕ, ◌≡◌, refl, sym, ap, ◌∙◌, Bool, true, false, Option, none, some, ℕ_eq, List, [], ◌∷◌, arith,
  update,
}
use mathlib.Core.Path.{subst}
use kinova_gen3_ros.Common.Text.{String}
use kinova_gen3_ros.Driver.{GoalId, TrajectoryFeedback, TrajectoryResult}
use kinova_gen3_ros.Externals.{Double, Packages}
use kinova_gen3_ros.Planner.{Outcome}
use kinova_gen3_ros.PlannedMove.Server.{feedback, settle_locks}
use kinova_gen3_ros.PlannedMove.Terminals.{is_unborn}
use kinova_gen3_ros.PlannedMove.Terminals.Steps.{move-Sound, fresh-Sound}
use kinova_gen3_ros.PlannedMove.Terminals.Handover.{Linked, or-false}
use kinova_gen3_ros.PlannedMove.Terminals.Handover.Moves.{arrive-Linked, feed-Linked}
use kinova_gen3_ros.PlannedMove.Terminals.Handover.Births.{feed-birth, settle-birth, fresh-unborn}
use kinova_gen3_ros.Backend as Backend
use kinova_gen3_ros.Backend.Goals.{terminals}
use kinova_gen3_ros.Router.{init, Delivery}
use kinova_gen3_ros.Router as Router
use kinova_gen3_ros.Node.{
  Port, trajectory_action, goto, Node, Event, accepts_move, accepts_trajectory, acts, cancels,
  feeds, settles, arrives, feed, feed_port, settle, route_result, settle_port, deliver, arrive,
  step, init_node, after,
}
use kinova_gen3_ros.Node.Trajectories.{entered, settle-Follows, settle-entered, feed-Follows}
use kinova_gen3_ros.Node.Routing.{
  present, Unborn, At, PlacedAs, Routed, follow-At, track-At, settle-At, update_self, update_other,
}
use kinova_gen3_ros.Node.Routing.Parts.{
  equal-At, by_goal, update-Sound, follow-Routed, cancel-Routed, settle-owner, settle-other,
  settle-default, settle-delivery,
}
use kinova_gen3_ros.Node.Routing.Steps.{act-Routed, accept_move-Routed, accept_trajectory-Routed}

module _ {W : Type 0} where
  route_result-Routed :
      (b : Bool) (j : GoalId) (r : TrajectoryResult W) (n : Node W)
      → n.held j ≡ b
      → Routed n
      → Routed (route_result b j r n)
  route_result-Routed false j r n e i = i
  route_result-Routed true j r n e i = record {
    falls_through = settle-default n.router r j ∙ i.falls_through;
    sound = i.sound;
    placed =
        by_goal _ j
          (equal-At j _ _ _ _ _ _ _ refl (settle-owner n.router r j)
            (update_self n.held j j false refl)
            (update_self n.arriving j j _ refl
              ∙ ap some (settle-delivery n.router r j i.falls_through))
            refl
            (settle-At j (n.router.owners j) (n.held j) (n.arriving j) (n.servers j) _ _
              (n.origin j) r e (i.placed j)))
          λ id other.
            equal-At id _ _ _ _ _ _ _ refl (settle-other n.router r j id other)
              (update_other n.held j id false other) (update_other n.arriving j id _ other) refl
              (i.placed id);
  }

  pub settle-Routed :
      (j : GoalId) (r : TrajectoryResult W) (n : Node W) → Routed n → Routed (settle j r n)
  unfolding settle
  settle-Routed j r n i = route_result-Routed (n.held j) j r n refl i

module _ {W : Type 0} ⦃d : Double W⦄ ⦃k : Packages W⦄ (arm_joint_names : List String)
    (check_plan : ℕ → Outcome W → Option String) where
  feed_port-Routed :
      (p : Port) (j : GoalId) (fb : TrajectoryFeedback W) (n : Node W)
      → Routed n
      → Routed (feed_port arm_joint_names check_plan p j fb n)
  feed_port-Routed trajectory_action j fb n i =
      follow-Routed n _ (λ id. feed-Follows id j fb n.backend) i
  feed_port-Routed (goto s) j fb n i = record {
    falls_through = i.falls_through;
    sound =
        update-Sound n.servers j s _
          (move-Sound arm_joint_names (check_plan s) feedback (n.servers j s) (i.sound j s))
          i.sound;
    placed =
        by_goal _ j
          (equal-At j _ _ _ _ _ _ _ refl refl refl refl (update_self n.servers j j _ refl) (
            track-At j (n.router.owners j) (n.held j) (n.arriving j) (n.servers j) _ _ (n.origin j)
              s _ false false (feed-birth arm_joint_names (check_plan s) (n.servers j s))
              (λ u. (refl, refl))
              (λ o h a l.
                rw (or-false o, or-false h)
                  (feed-Linked arm_joint_names (check_plan s) (n.servers j s) o h a l))
              (i.placed j)))
          λ id other.
            equal-At id _ _ _ _ _ _ _ refl refl refl refl (update_other n.servers j id _ other)
              (i.placed id);
  }

  -- The result arrives, at the action that accepted the goal.
  arrive_trajectory-Routed :
      (j : GoalId) (r : TrajectoryResult W) (n : Node W)
      → n.origin j ≡ some trajectory_action
      → Routed n
      → Routed (
          settle_port arm_joint_names check_plan trajectory_action j r
            (record n { arriving = update n.arriving j none }))
  arrive_trajectory-Routed j r n e i = record {
    falls_through = i.falls_through;
    sound = i.sound;
    placed =
        by_goal _ j
          (let p : PlacedAs n j (some trajectory_action) = subst (PlacedAs n j) e (i.placed j) in
            let gone : entered ((Backend.settle j r n.backend).handles j) ≡ 0 =
              settle-entered j r n.backend in
            equal-At j (some trajectory_action) (n.router.owners j) (n.held j) none (n.servers j) _
              _ e refl refl (update_self n.arriving j j none refl) refl
              (
                p.0,
                tt,
                λ _. refl,
                (settle-Follows j j r n.backend).total ∙ p.3,
                λ y. absurd (omega (arith, gone, y)),
                p.5,
              ))
          λ id other.
            equal-At id _ _ _ _ _ _ _ refl refl refl (update_other n.arriving j id none other) refl
              (follow-At id _ _ _ _ _ _ (n.origin id) _ _ (settle-Follows id j r n.backend).total
                (settle-Follows id j r n.backend).fewer (i.placed id));
  }

  arrive_goto-Routed :
      (s : ℕ) (j : GoalId) (r : TrajectoryResult W) (n : Node W)
      → n.origin j ≡ some (goto s)
      → present (n.arriving j) ≡ true
      → Routed n
      → Routed (
          settle_port arm_joint_names check_plan
            (goto s)
            j
            r
            (record n { arriving = update n.arriving j none }))
  arrive_goto-Routed s j r n e f i = record {
    falls_through = i.falls_through;
    sound =
        update-Sound n.servers j s _
          (move-Sound arm_joint_names (check_plan s) (settle_locks r) (n.servers j s) (i.sound j s))
          i.sound;
    placed =
        by_goal _ j
          (let p : PlacedAs n j (some (goto s)) = subst (PlacedAs n j) e (i.placed j) in
            let l : Linked (n.servers j s) (present (n.router.owners j)) (n.held j) true =
              subst (Linked (n.servers j s) (present (n.router.owners j)) (n.held j)) f p.2 in
            equal-At j (some (goto s)) (n.router.owners j) (n.held j) none _ _ _ e refl refl
              (update_self n.arriving j j none refl) (update_self n.servers j j _ refl)
              (
                p.0,
                tt,
                subst (λ t. Linked t (present (n.router.owners j)) (n.held j) false)
                    (sym (update_self (n.servers j) s s _ refl))
                    (arrive-Linked arm_joint_names (check_plan s) r (n.servers j s) _ _ l),
                p.3,
                λ q o. subst Unborn (sym (update_other (n.servers j) s q _ o)) (p.4 q o),
                subst (λ t. is_unborn t.thread ≡ false) (sym (update_self (n.servers j) s s _ refl))
                    (settle-birth arm_joint_names (check_plan s) r (n.servers j s) ∙ p.5),
              ))
          λ id other.
            equal-At id _ _ _ _ _ _ _ refl refl refl (update_other n.arriving j id none other)
              (update_other n.servers j id _ other) (i.placed id);
  }

  deliver-Routed :
      (o : Option Port) (a : Option (Delivery Port (TrajectoryResult W))) (j : GoalId) (n : Node W)
      → n.origin j ≡ o
      → n.arriving j ≡ a
      → At j o
          (n.router.owners j)
          (n.held j)
          a
          (n.servers j)
          (entered (n.backend.handles j))
          (terminals j n.backend.log)
      → Routed n
      → Routed (deliver arm_joint_names check_plan a j n)
  deliver-Routed o none j n e f p i = i
  deliver-Routed none (some c) j n e f p i = absurd (cc (p.2))
  deliver-Routed (some trajectory_action) (some c) j n e f p i =
      subst (λ x. Routed (deliver arm_joint_names check_plan (some x) j n)) (sym p.1.1)
        (arrive_trajectory-Routed j p.1.0 n e i)
  deliver-Routed (some (goto s)) (some c) j n e f p i =
      subst (λ x. Routed (deliver arm_joint_names check_plan (some x) j n)) (sym p.1.1)
        (arrive_goto-Routed s j p.1.0 n e (ap present f) i)

  pub step-Routed :
      (e : Event W) (n : Node W) → Routed n → Routed (step arm_joint_names check_plan e n)
  unfolding step feed arrive
  step-Routed (accepts_move s j g) n i = accept_move-Routed arm_joint_names check_plan s j g n i
  step-Routed (accepts_trajectory j g) n i =
      accept_trajectory-Routed arm_joint_names check_plan j g n i
  step-Routed (acts s j e) n i = act-Routed arm_joint_names check_plan s j e n i
  step-Routed (cancels sink j) n i = cancel-Routed sink j n i
  step-Routed (feeds j fb) n i =
      feed_port-Routed (Router.publish_feedback n.router j fb).port j fb n i
  step-Routed (settles j r) n i = settle-Routed j r n i
  step-Routed (arrives j) n i =
      deliver-Routed (n.origin j) (n.arriving j) j n refl refl (i.placed j) i

  init-Routed : Routed (init_node arm_joint_names check_plan)
  unfolding init_node init
  init-Routed = record {
    falls_through = refl;
    sound = λ id s. fresh-Sound W;
    placed = λ id. (refl, refl, refl, refl, λ s. fresh-unborn W);
  }

  -- The routing of every goal holds after every history.
  pub after-Routed : (h : List (Event W)) → Routed (after arm_joint_names check_plan h)
  unfolding after
  after-Routed [] = init-Routed
  after-Routed (e ∷ older) =
      step-Routed e (after arm_joint_names check_plan older) (after-Routed older)
