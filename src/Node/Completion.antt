-- ===== src/Node/Completion.antt =====
-- The way of a GoTo goal to its end in the whole node, from any state.
use kinova_gen3_ros.Common.{
  ℕ, ◌≡◌, ◌≢◌, refl, sym, ap, ◌∙◌, Bool, true, false, Option, none, some, List, [], ◌∷◌, ◌++◌, map,
  replicate, All, if_yes,
}
use mathlib.Core.Path.{subst}
use kinova_gen3_ros.Common.Text.{String}
use kinova_gen3_ros.Driver.{GoalId, TrajectoryResult}
use kinova_gen3_ros.Externals.{Double, Packages}
use kinova_gen3_ros.Planner.{Outcome}
use kinova_gen3_ros.PlannedMove.Server.{
  Answers, Track, plan_done, advances, settle_locks, settle_ends, move,
}
use kinova_gen3_ros.PlannedMove.Server.{Event as ServerEvent}
use kinova_gen3_ros.PlannedMove.Terminals as Moves
use kinova_gen3_ros.PlannedMove.Terminals.{is_unborn}
use kinova_gen3_ros.PlannedMove.Terminals.Completion.{run, closing-pays}
use kinova_gen3_ros.PlannedMove.Terminals.Handover.{Linked, is_own}
use kinova_gen3_ros.PlannedMove.Terminals.Handover.Moves.{idle-settle}
use kinova_gen3_ros.Router.{Delivery}
use kinova_gen3_ros.Node.{
  Port, trajectory_action, goto, Node, Event, acts, settles, arrives, act, settle, route_result,
  deliver, settle_port, arrive, step, after,
}
use kinova_gen3_ros.Node.Routing.{present, PlacedAs, Addressed, Routed, update_self}
use kinova_gen3_ros.Node.Routing.Calls.{after-Routed, settle-Routed}
use kinova_gen3_ros.Node.Fates.{terminals, others_silent}

module _ {W : Type 0} where
  -- The planner's answer, the rest of on_plan_done, the supervisor's result through the router, and
  -- the end of settle.
  abbrev pub closing : ℕ → GoalId → Outcome W → Answers W → TrajectoryResult W → List (Event W)
  closing s id o a r =
      acts s id settle_ends
      ∷ arrives id
      ∷ settles id r
      ∷ map (acts s id) (replicate 8 (advances a) ++ (plan_done o ∷ []))

  route_result-servers :
      (b : Bool) (id : GoalId) (r : TrajectoryResult W) (n : Node W)
      → ((route_result b id r n).servers ≡ n.servers) × ((route_result b id r n).origin ≡ n.origin)
  route_result-servers true id r n = (refl, refl)
  route_result-servers false id r n = (refl, refl)

  route_result-held :
      (b : Bool) (id : GoalId) (r : TrajectoryResult W) (n : Node W)
      → n.held id ≡ b
      → (route_result b id r n).held id ≡ false
  route_result-held true id r n e = update_self n.held id id false refl
  route_result-held false id r n e = e

module _ {W : Type 0} ⦃d : Double W⦄ ⦃k : Packages W⦄ (arm_joint_names : List String)
    (check_plan : ℕ → Outcome W → Option String) where
  act-track :
      (s : ℕ) (id : GoalId) (e : ServerEvent W) (n : Node W)
      → is_own e ≡ true
      → ((act arm_joint_names check_plan s id e n).servers id s
          ≡ move arm_joint_names (check_plan s) e (n.servers id s))
        × ((act arm_joint_names check_plan s id e n).origin ≡ n.origin)
  unfolding act
  act-track s id e n own = (
    ap (λ m. m.servers id s) (if_yes _ n own)
        ∙ ap (λ f. f s) (update_self n.servers id id _ refl)
        ∙ update_self (n.servers id) s s _ refl,
    ap (λ m. m.origin) (if_yes _ n own),
  )

  -- Steps of one goal's server move its track.
  run-track :
      (es : List (ServerEvent W)) (s : ℕ) (id : GoalId) (h : List (Event W))
      → All (λ e. is_own e ≡ true) es
      → ((after arm_joint_names check_plan (map (acts s id) es ++ h)).servers id s
          ≡ run arm_joint_names
              (check_plan s)
              es
              ((after arm_joint_names check_plan h).servers id s))
        × ((after arm_joint_names check_plan (map (acts s id) es ++ h)).origin
            ≡ (after arm_joint_names check_plan h).origin)
  unfolding after step
  run-track [] s id h own = (refl, refl)
  run-track (e ∷ es) s id h own =
      let n = after arm_joint_names check_plan (map (acts s id) es ++ h) in
      let (t, o) = run-track es s id h own.1 in
      let (t', o') = act-track s id e n own.0 in
      (t' ∙ ap (move arm_joint_names (check_plan s) e) t, o' ∙ o)

  -- The result arrives, or there is none, and then a settle would change nothing.
  deliver-track :
      (s : ℕ) (id : GoalId) (r : TrajectoryResult W) (n : Node W)
      (a : Option (Delivery Port (TrajectoryResult W)))
      → n.held id ≡ false
      → Linked (n.servers id s) (present (n.router.owners id)) (n.held id) (present a)
      → Addressed id (goto s) a
      → (x : TrajectoryResult W) × ((deliver arm_joint_names check_plan a id n).servers id s
          ≡ move arm_joint_names (check_plan s) (settle_locks x) (n.servers id s))
  deliver-track s id r n none h l p = (
    r,
    sym (
        idle-settle arm_joint_names (check_plan s) r (n.servers id s) _
          (subst (λ b. Linked (n.servers id s) (present (n.router.owners id)) b false) h l)),
  )
  deliver-track s id r n (some c) h l p = (
    p.0,
    subst
        (λ x.
          (deliver arm_joint_names check_plan (some x) id n).servers id s
          ≡ move arm_joint_names (check_plan s) (settle_locks p.0) (n.servers id s))
        (sym p.1)
        (ap (λ f. f s) (update_self n.servers id id _ refl)
          ∙ update_self (n.servers id) s s _ refl),
  )

  settle_port-origin :
      (p : Port) (id : GoalId) (r : TrajectoryResult W) (n : Node W)
      → (settle_port arm_joint_names check_plan p id r n).origin ≡ n.origin
  settle_port-origin trajectory_action id r n = refl
  settle_port-origin (goto s) id r n = refl

  deliver-origin :
      (a : Option (Delivery Port (TrajectoryResult W))) (id : GoalId) (n : Node W)
      → (deliver arm_joint_names check_plan a id n).origin ≡ n.origin
  deliver-origin none id n = refl
  deliver-origin (some c) id n = settle_port-origin c.port c.id c.payload _

  -- From the end of on_plan_done on, a result through the router makes the terminal.
  settled :
      (s : ℕ) (id : GoalId) (o : Outcome W) (a : Answers W) (r : TrajectoryResult W) (t : Track W)
      (n : Node W)
      → Routed n
      → n.origin id ≡ some (goto s)
      → n.servers id s
        ≡ run arm_joint_names (check_plan s) (replicate 8 (advances a) ++ (plan_done o ∷ [])) t
      → Moves.Sound t
      → is_unborn t.thread ≡ false
      → terminals
          (goto s)
          (act arm_joint_names check_plan s id settle_ends
            (arrive arm_joint_names check_plan id (settle id r n)))
          id
        ≡ 1
  unfolding settle arrive is_own
  settled s id o a r t n i origin track sound born =
      let m = settle id r n in
      let p : PlacedAs m id (some (goto s)) =
        subst (PlacedAs m id) (ap (λ f. f id) (route_result-servers (n.held id) id r n).1 ∙ origin)
          ((settle-Routed id r n i).placed id) in
      let (x, e) =
        deliver-track s id r m (m.arriving id) (route_result-held (n.held id) id r n refl) p.2
          p.1 in
      let arrived =
        e
        ∙ ap (λ f. move arm_joint_names (check_plan s) (settle_locks x) (f id s))
            (route_result-servers (n.held id) id r n).0
        ∙ ap (move arm_joint_names (check_plan s) (settle_locks x)) track in
      ap (λ u. Moves.terminals u.log)
        ((act-track s id settle_ends (deliver arm_joint_names check_plan (m.arriving id) id m)
            refl).0
          ∙ ap (move arm_joint_names (check_plan s) settle_ends) arrived)
      ∙ closing-pays arm_joint_names (check_plan s) o a x t sound born

  -- Every GoTo goal comes to its end in the whole node: after any interleaving in which a GoTo
  -- server accepted a goal, the planner's answer (ignored when it was given before), eight steps of
  -- on_plan_done, a result from the supervisor (ignored when it does not hold the goal), its way
  -- through the router and the end of settle leave the goal terminaled exactly once by that server
  -- and never by another, whatever the answers are.
  pub goal_completes :
      (h : List (Event W)) (s : ℕ) (id : GoalId) (o : Outcome W) (a : Answers W)
      (r : TrajectoryResult W)
      → (after arm_joint_names check_plan h).origin id ≡ some (goto s)
      → (terminals (goto s) (after arm_joint_names check_plan (closing s id o a r ++ h)) id ≡ 1)
        × ((q : Port)
            → q ≢ goto s
            → terminals q (after arm_joint_names check_plan (closing s id o a r ++ h)) id ≡ 0)
  unfolding after step is_own settle arrive
  goal_completes h s id o a r e =
      let es : List (ServerEvent W) = replicate 8 (advances a) ++ (plan_done o ∷ []) in
      let n = after arm_joint_names check_plan (map (acts s id) es ++ h) in
      let own : All (λ x. is_own x ≡ true) es =
        (refl, (refl, (refl, (refl, (refl, (refl, (refl, (refl, (refl, tt))))))))) in
      let i = after-Routed arm_joint_names check_plan h in
      let p : PlacedAs (after arm_joint_names check_plan h) id (some (goto s)) =
        subst (PlacedAs (after arm_joint_names check_plan h) id) e (i.placed id) in
      let (track, origin) = run-track es s id h own in
      (
        settled s id o a r _ n (after-Routed arm_joint_names check_plan (map (acts s id) es ++ h))
            (ap (λ f. f id) origin ∙ e) track (i.sound id s) p.5,
        others_silent _ id (goto s)
            (after-Routed arm_joint_names check_plan (closing s id o a r ++ h))
            (ap (λ f. f id)
                ((act-track s id settle_ends (arrive arm_joint_names check_plan id (settle id r n))
                    refl).1
                  ∙ deliver-origin ((settle id r n).arriving id) id (settle id r n)
                  ∙ (route_result-servers (n.held id) id r n).1
                  ∙ origin)
              ∙ e),
      )
