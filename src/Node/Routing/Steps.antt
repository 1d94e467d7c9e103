-- ===== src/Node/Routing/Steps.antt =====
-- The steps of the GoTo servers and of ROS keep the routing of every goal.
use kinova_gen3_ros.Common.{
  ℕ, refl, ◌∙◌, Option, none, ℕ_eq, List, Bool-cases, inl, inr, if_yes, if_no,
}
use mathlib.Core.Path.{subst}
use kinova_gen3_ros.Common.Text.{String}
use kinova_gen3_ros.Driver.{GoalId}
use kinova_gen3_ros.Messages.{ExecuteGoal}
use kinova_gen3_ros.Externals.{Double, Packages}
use kinova_gen3_ros.Planner.{Outcome}
use kinova_gen3_ros.PlannedMove.{MoveGoal}
use kinova_gen3_ros.PlannedMove.Server.{accepts}
use kinova_gen3_ros.PlannedMove.Server.{Event as ServerEvent}
use kinova_gen3_ros.PlannedMove.Terminals.Steps.{move-Sound}
use kinova_gen3_ros.PlannedMove.Terminals.Handover.{is_own}
use kinova_gen3_ros.PlannedMove.Terminals.Handover.Moves.{move-Linked, accept-Linked}
use kinova_gen3_ros.PlannedMove.Terminals.Handover.Births.{
  move-birth, accept-birth, own-acceptance, registers-born, hands-born,
}
use kinova_gen3_ros.Backend.Goals.{terminals}
use kinova_gen3_ros.Node.{Node, accept_move, accept_trajectory, act}
use kinova_gen3_ros.Node.Trajectories.{entered, accept-total, accept-other}
use kinova_gen3_ros.Node.Routing.{PlacedAs, Routed, follow-At, track-At, update_self, update_other}
use kinova_gen3_ros.Node.Routing.Parts.{
  route-here, route-other, route-default, hold-here, hold-other, by_goal, equal-At, update-Sound,
  accept-At, accept_trajectory-At, when_new-Routed,
}

module _ {W : Type 0} ⦃d : Double W⦄ ⦃k : Packages W⦄ (arm_joint_names : List String)
    (check_plan : ℕ → Outcome W → Option String) where
  pub act-Routed :
      (s : ℕ) (j : GoalId) (e : ServerEvent W) (n : Node W)
      → Routed n
      → Routed (act arm_joint_names check_plan s j e n)
  unfolding act
  act-Routed s j e n i = elim (Bool-cases (is_own e)) [
    | inr other ↦ rw (if_no _ n other) i
    | inl own ↦ rw (if_yes _ n own) (record {
      falls_through = route-default _ s j n.router ∙ i.falls_through;
      sound =
          update-Sound n.servers j s _
            (move-Sound arm_joint_names (check_plan s) e (n.servers j s) (i.sound j s)) i.sound;
      placed =
          by_goal _ j
            (equal-At _ _ _ _ _ _ _ _ refl (route-here _ s j n.router) (hold-here _ j n.held) refl
              (update_self n.servers j j _ refl)
              (track-At j _ _ _ _ _ _ (n.origin j) s _ _ _
                (move-birth arm_joint_names (check_plan s) e (n.servers j s) (own-acceptance e own))
                (λ u. (registers-born e _ u, hands-born e _ u))
                (λ o h a l.
                  move-Linked arm_joint_names (check_plan s) e (n.servers j s) o h a own
                    (i.sound j s) l)
                (i.placed j)))
            λ id other.
              equal-At _ _ _ _ _ _ _ _ refl (route-other _ s j id n.router other)
                (hold-other _ j id n.held other) refl (update_other n.servers j id _ other)
                (i.placed id);
    })
  ]

  pub accept_move-Routed :
      (s : ℕ) (j : GoalId) (g : MoveGoal W) (n : Node W)
      → Routed n
      → Routed (accept_move arm_joint_names check_plan s j g n)
  unfolding accept_move
  accept_move-Routed s j g n i =
      when_new-Routed (n.origin j) _ n
        (λ new. record {
          falls_through = i.falls_through;
          sound =
              update-Sound n.servers j s _
                (move-Sound arm_joint_names (check_plan s) (accepts g) (n.servers j s)
                  (i.sound j s))
                i.sound;
          placed =
              by_goal _ j
                (let p : PlacedAs n j none = subst (PlacedAs n j) new (i.placed j) in
                  equal-At j _ _ _ _ _ _ _ (update_self n.origin j j _ refl) refl refl refl
                    (update_self n.servers j j _ refl)
                    (accept-At j (n.router.owners j) (n.held j) (n.arriving j) (n.servers j)
                      (entered (n.backend.handles j)) (terminals j n.backend.log) s _
                      (accept-Linked arm_joint_names (check_plan s) g (n.servers j s) (p.4 s)
                        (i.sound j s))
                      (accept-birth arm_joint_names (check_plan s) g (n.servers j s) (p.4 s)) p))
                λ id other.
                  equal-At id _ _ _ _ _ _ _ (update_other n.origin j id _ other) refl refl refl
                    (update_other n.servers j id _ other) (i.placed id);
        })
        i

  pub accept_trajectory-Routed :
      (j : GoalId) (g : ExecuteGoal W) (n : Node W)
      → Routed n
      → Routed (accept_trajectory arm_joint_names check_plan j g n)
  unfolding accept_trajectory
  accept_trajectory-Routed j g n i =
      when_new-Routed (n.origin j) _ n
        (λ new. record {
          falls_through = i.falls_through;
          sound = i.sound;
          placed =
              by_goal _ j
                (let p : PlacedAs n j none = subst (PlacedAs n j) new (i.placed j) in
                  equal-At j _ _ _ _ _ _ _ (update_self n.origin j j _ refl) refl
                    (update_self n.held j j _ refl) refl refl
                    (accept_trajectory-At j (n.router.owners j) (n.held j) (n.arriving j)
                      (n.servers j) (entered (n.backend.handles j)) (terminals j n.backend.log) _ _
                      (accept-total j g n.backend p.3) p))
                λ id other.
                  equal-At id _ _ _ _ _ _ _ (update_other n.origin j id _ other) refl
                    (update_other n.held j id _ other) refl refl
                    (follow-At id _ _ _ _ _ _ (n.origin id) _ _
                      (accept-other id j g n.backend other).total
                      (accept-other id j g n.backend other).fewer (i.placed id));
        })
        i
