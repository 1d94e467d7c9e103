-- ===== src/Node/Fates.antt =====
-- What becomes of a goal in the whole node: where its result goes, and how often each server has
-- terminaled it.
use kinova_gen3_ros.Common.{
  ℕ, zero, suc, ◌≡◌, ◌≢◌, ◌+◌, refl, sym, ap, Bool, true, false, Option, none, some, ◌==◌, ℕ_eq,
  List, [], arith, Bool-cases, inl, inr,
}
use mathlib.Core.Path.{subst}
use kinova_gen3_ros.Common.Text.{String}
use kinova_gen3_ros.Driver.{GoalId, TrajectoryResult}
use kinova_gen3_ros.Externals.{Double, Packages}
use kinova_gen3_ros.Planner.{Outcome}
use kinova_gen3_ros.PlannedMove.Server.{finished}
use kinova_gen3_ros.PlannedMove.Terminals.{Sound}
use kinova_gen3_ros.PlannedMove.Terminals as Moves
use kinova_gen3_ros.PlannedMove.Terminals.Handover.{Linked}
use kinova_gen3_ros.PlannedMove.Terminals.Handover.Moves.{rested-terminals, unborn-terminals}
use kinova_gen3_ros.Backend.Goals as Trajectories
use kinova_gen3_ros.Router.{Delivery}
use kinova_gen3_ros.Node.{Port, trajectory_action, goto, Node, Event, after}
use kinova_gen3_ros.Node.Trajectories.{entered}
use kinova_gen3_ros.Node.Routing.{present, At, PlacedAs, Routed}
use kinova_gen3_ros.Node.Routing.Calls.{after-Routed}

other-server : (s q : ℕ) → ◌≢◌ {A = Port} (goto q) (goto s) → (s == q) ≡ false
other-server s q ne = elim (Bool-cases (s == q)) [
  | inl y ↦ absurd (ne (ap goto (sym ((ℕ_eq.equals_iff s q).0 y))))
  | inr n ↦ n
]

one_fate : (e m : ℕ) {b : Bool} → e + m ≡ 1 → (e ≡ 1 → b ≡ true) → b ≡ false → m ≡ 1
one_fate zero m t f n = omega (arith, t)
one_fate (suc zero) m t f n = absurd (cc (f refl))
one_fate (suc (suc e)) m t f n = absurd (omega (arith, t))

module _ {W : Type 0} where
  -- How often a server has terminaled a goal.
  abbrev pub terminals : Port → Node W → GoalId → ℕ
  terminals trajectory_action n id = Trajectories.terminals id n.backend.log
  terminals (goto s) n id = Moves.terminals (n.servers id s).log

  -- Nothing of the goal is under way in its server: on_plan_done has ended, and no settle stands
  -- between its lock and its terminal.
  abbrev pub Rests : Port → Node W → GoalId → Type 0
  Rests trajectory_action n id = Unit
  Rests (goto s) n id = ((n.servers id s).thread ≡ finished) × ((n.servers id s).settles ≡ [])

  addressed-origin :
      (n : Node W) (id : GoalId) (o : Option Port) (a : Option (Delivery Port (TrajectoryResult W)))
      (c : Delivery Port (TrajectoryResult W))
      → At id o
          (n.router.owners id)
          (n.held id)
          a
          (n.servers id)
          (entered (n.backend.handles id))
          (Trajectories.terminals id n.backend.log)
      → a ≡ some c
      → (o ≡ some c.port) × (c.id ≡ id)
  addressed-origin n id o none c p e = absurd (cc e)
  addressed-origin n id none (some b) c p e = absurd (cc (p.2))
  addressed-origin n id (some trajectory_action) (some b) c p e = ground (arith, p.1.1, e)
  addressed-origin n id (some (goto s)) (some b) c p e = ground (arith, p.1.1, e)

  -- Only the server of the action that accepted a goal terminals it.
  pub others_silent :
      (n : Node W) (id : GoalId) (p : Port)
      → Routed n
      → n.origin id ≡ some p
      → (q : Port) → q ≢ p
      → terminals q n id ≡ 0
  others_silent n id trajectory_action i o trajectory_action ne = absurd (ne refl)
  others_silent n id trajectory_action i o (goto s) ne =
      let p : PlacedAs n id (some trajectory_action) = subst (PlacedAs n id) o (i.placed id) in
      unborn-terminals (n.servers id s) (i.sound id s) (p.5 s)
  others_silent n id (goto s) i o trajectory_action ne =
      let p : PlacedAs n id (some (goto s)) = subst (PlacedAs n id) o (i.placed id) in
      omega (arith, p.3)
  others_silent n id (goto s) i o (goto q) ne =
      let p : PlacedAs n id (some (goto s)) = subst (PlacedAs n id) o (i.placed id) in
      unborn-terminals (n.servers id q) (i.sound id q) (p.4 q (other-server s q ne))

  ends_once :
      (n : Node W) (id : GoalId) (p : Port)
      → Routed n
      → n.origin id ≡ some p
      → n.held id ≡ false
      → n.arriving id ≡ none
      → Rests p n id
      → terminals p n id ≡ 1
  ends_once n id trajectory_action i o h a r =
      let p : PlacedAs n id (some trajectory_action) = subst (PlacedAs n id) o (i.placed id) in
      one_fate _ _ p.3 p.4 (rw (h, a) refl)
  ends_once n id (goto s) i o h a r =
      let p : PlacedAs n id (some (goto s)) = subst (PlacedAs n id) o (i.placed id) in
      rested-terminals (n.servers id s) _ (i.sound id s)
        (subst (λ b. Linked (n.servers id s) (present (n.router.owners id)) b false) h
          (subst
            (λ b. Linked (n.servers id s) (present (n.router.owners id)) (n.held id) (present b)) a
            p.2))
        r.0 r.1

module _ {W : Type 0} ⦃d : Double W⦄ ⦃k : Packages W⦄ (arm_joint_names : List String)
    (check_plan : ℕ → Outcome W → Option String) where
  -- No result is misrouted: after any interleaving of the servers, ROS and the supervisor, a result
  -- on its way is addressed to the action that accepted the goal, under the goal's own identifier.
  pub result_reaches_owner :
      (h : List (Event W)) (id : GoalId) (c : Delivery Port (TrajectoryResult W))
      → (after arm_joint_names check_plan h).arriving id ≡ some c
      → ((after arm_joint_names check_plan h).origin id ≡ some c.port) × (c.id ≡ id)
  result_reaches_owner h id c e =
      addressed-origin (after arm_joint_names check_plan h) id _ _ c
        ((after-Routed arm_joint_names check_plan h).placed id) e

  -- Every goal ends once in the whole node: after any interleaving, once the supervisor does not
  -- hold a goal, no result is on its way to it and nothing of it is under way in the server of the
  -- action that accepted it, that server has terminaled it exactly once, and no other server has.
  pub goal_ends_once :
      (h : List (Event W)) (id : GoalId) (p : Port)
      → (after arm_joint_names check_plan h).origin id ≡ some p
      → (after arm_joint_names check_plan h).held id ≡ false
      → (after arm_joint_names check_plan h).arriving id ≡ none
      → Rests p (after arm_joint_names check_plan h) id
      → (terminals p (after arm_joint_names check_plan h) id ≡ 1)
        × ((q : Port) → q ≢ p → terminals q (after arm_joint_names check_plan h) id ≡ 0)
  goal_ends_once h id p o held arriving rests = (
    ends_once (after arm_joint_names check_plan h) id p (after-Routed arm_joint_names check_plan h)
        o held arriving rests,
    others_silent (after arm_joint_names check_plan h) id p
        (after-Routed arm_joint_names check_plan h) o,
  )
