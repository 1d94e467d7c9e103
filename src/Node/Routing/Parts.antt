-- ===== src/Node/Routing/Parts.antt =====
-- The pieces of the node's steps: what each changes of the router, the supervisor's goals and one
-- goal's facts.
use kinova_gen3_ros.Common.{
  ℕ, ◌≡◌, ◌+◌, refl, sym, Bool, true, false, Option, none, some, ◌==◌, ℕ_eq, arith, Bool-cases,
  Option-cases, inl, inr, if_yes, if_no, if◌then◌else◌, update,
}
use mathlib.Core.Path.{subst}
use kinova_gen3_ros.Driver.{GoalId, TrajectoryResult}
use kinova_gen3_ros.PlannedMove.Server.{Track}
use kinova_gen3_ros.PlannedMove.Terminals.{Sound, is_unborn}
use kinova_gen3_ros.PlannedMove.Terminals.Handover.{Linked}
use kinova_gen3_ros.Backend.{CommandSink}
use kinova_gen3_ros.Backend as Backend
use kinova_gen3_ros.Router.{GoalRouter, Delivery, or_default, register_owner}
use kinova_gen3_ros.Router as Router
use kinova_gen3_ros.Node.{
  Port, trajectory_action, goto, Node, route, hold, cancel_trajectory, when_new,
}
use kinova_gen3_ros.Node.Trajectories.{Follows, cancel-Follows}
use kinova_gen3_ros.Node.Routing.{Unborn, At, Routed, follow-At, update_self, update_other}

-- The router after a step that may register a server.
pub route-here :
    (b : Bool) (s : ℕ) (id : GoalId) (r : GoalRouter Port)
    → (route b s id r).owners id ≡ (if b then some (goto s) else r.owners id)
unfolding register_owner
route-here true s id r = update_self r.owners id id (some (goto s)) refl
route-here false s id r = refl

pub route-other :
    (b : Bool) (s : ℕ) (j id : GoalId) (r : GoalRouter Port)
    → (j == id) ≡ false
    → (route b s j r).owners id ≡ r.owners id
unfolding register_owner
route-other true s j id r n = update_other r.owners j id (some (goto s)) n
route-other false s j id r n = refl

pub route-default :
    (b : Bool) (s : ℕ) (id : GoalId) (r : GoalRouter Port)
    → (route b s id r).default_port ≡ r.default_port
unfolding register_owner
route-default true s id r = refl
route-default false s id r = refl

pub hold-here :
    (b : Bool) (id : GoalId) (f : GoalId → Bool) → hold b id f id ≡ (if b then true else f id)
hold-here true id f = update_self f id id true refl
hold-here false id f = refl

pub hold-other :
    (b : Bool) (j id : GoalId) (f : GoalId → Bool) → (j == id) ≡ false → hold b j f id ≡ f id
hold-other true j id f n = update_other f j id true n
hold-other false j id f n = refl

-- A property of every goal, where a step touches one goal.
pub by_goal :
    (P : GoalId → Type 0) (j : GoalId)
    → P j
    → ((id : GoalId) → (j == id) ≡ false → P id)
    → (id : GoalId) → P id
by_goal P j here other id = elim (Bool-cases (j == id)) [
  | inl y ↦ subst P ((ℕ_eq.equals_iff j id).0 y) here
  | inr n ↦ other id n
]

module _ {W : Type 0} where
  -- The same facts, read off other fields.
  pub equal-At :
      (id : GoalId) (o w : Option Port) (h : Bool) (a : Option (Delivery Port (TrajectoryResult W)))
      (ts : ℕ → Track W) (e m : ℕ) {o' w' : Option Port} {h' : Bool}
      {a' : Option (Delivery Port (TrajectoryResult W))} {ts' : ℕ → Track W}
      → o' ≡ o
      → w' ≡ w
      → h' ≡ h
      → a' ≡ a
      → ts' ≡ ts
      → At id o w h a ts e m
      → At id o' w' h' a' ts' e m
  equal-At id o w h a ts e m p q r s t x = rw (p, q, r, s, t) x

  pub update-Sound :
      (f : GoalId → ℕ → Track W) (j : GoalId) (s : ℕ) (t : Track W)
      → Sound t
      → ((id : GoalId) (q : ℕ) → Sound (f id q))
      → (id : GoalId) (q : ℕ) → Sound (update f j (update (f j) s t) id q)
  update-Sound f j s t k all id q = elim (Bool-cases (j == id)) [
    | inl y ↦ rw (if_yes (update (f j) s t) (f id) y) (elim (Bool-cases (s == q)) [
      | inl z ↦ rw (if_yes t (f j q) z) k
      | inr z ↦ rw (if_no t (f j q) z) (all j q)
    ])
    | inr n ↦ rw (if_no (update (f j) s t) (f id) n) (all id q)
  ]

  -- A goal accepted by a GoTo server, and by the trajectory action.
  pub accept-At :
      (id : GoalId) (w : Option Port) (h : Bool) (a : Option (Delivery Port (TrajectoryResult W)))
      (ts : ℕ → Track W) (e m s : ℕ) (t : Track W)
      → Linked t false false false
      → is_unborn t.thread ≡ false
      → At id none w h a ts e m
      → At id (some (goto s)) w h a (update ts s t) e m
  accept-At id w h a ts e m s t l b (wn, hf, an, em, u) =
      rw (wn, hf, an)
        (
          tt,
          tt,
          subst (λ v. Linked v false false false) (sym (update_self ts s s t refl)) l,
          em,
          λ q n. subst Unborn (sym (update_other ts s q t n)) (u q),
          subst (λ v. is_unborn v.thread ≡ false) (sym (update_self ts s s t refl)) b,
        )

  pub accept_trajectory-At :
      (id : GoalId) (w : Option Port) (h : Bool) (a : Option (Delivery Port (TrajectoryResult W)))
      (ts : ℕ → Track W) (e m e' m' : ℕ)
      → e' + m' ≡ 1
      → At id none w h a ts e m
      → At id (some trajectory_action) w true a ts e' m'
  accept_trajectory-At id w h a ts e m e' m' one (wn, hf, an, em, u) =
      (wn, rw an tt, λ _. an, one, λ _. refl, u)

  pub when_new-Routed :
      (o : Option Port) (n' n : Node W)
      → (o ≡ none → Routed n')
      → Routed n
      → Routed (when_new o n' n)
  when_new-Routed none n' n f i = f refl
  when_new-Routed (some p) n' n f i = i

  -- A step of the trajectory action alone.
  pub follow-Routed :
      (n : Node W) (b : Backend.Backend W)
      → ((id : GoalId) → Follows id n.backend b)
      → Routed n
      → Routed (record n { backend = b })
  follow-Routed n b f i = record {
    falls_through = i.falls_through;
    sound = i.sound;
    placed =
        λ id. follow-At id _ _ _ _ _ _ (n.origin id) _ _ (f id).total (f id).fewer (i.placed id);
  }

  pub cancel-Routed :
      (sink : Option (CommandSink W)) (j : GoalId) (n : Node W)
      → Routed n
      → Routed (cancel_trajectory sink j n)
  unfolding cancel_trajectory
  cancel-Routed sink j n i = follow-Routed n _ (λ id. cancel-Follows id j sink n.backend) i

module _ {W : Type 0} (r : GoalRouter Port) (x : TrajectoryResult W) where
  pub settle-owner : (id : GoalId) → (Router.settle r id x).0.owners id ≡ none
  unfolding Router.settle
  settle-owner id = elim (Option-cases (r.owners id)) [
    | inl e ↦ ground (arith, e)
    | inr (p, e) ↦ ground (arith, e)
  ]

  pub settle-other :
      (j id : GoalId) → (j == id) ≡ false → (Router.settle r j x).0.owners id ≡ r.owners id
  unfolding Router.settle
  settle-other j id n = elim (Option-cases (r.owners j)) [
    | inl e ↦ ground (arith, e)
    | inr (p, e) ↦ ground (arith, e, n)
  ]

  pub settle-default : (j : GoalId) → (Router.settle r j x).0.default_port ≡ r.default_port
  unfolding Router.settle
  settle-default j = elim (Option-cases (r.owners j)) [
    | inl e ↦ ground (arith, e)
    | inr (p, e) ↦ ground (arith, e)
  ]

  pub settle-delivery :
      (id : GoalId)
      → r.default_port ≡ trajectory_action
      → (Router.settle r id x).1
        ≡ record { port = or_default trajectory_action (r.owners id); id = id; payload = x }
  unfolding Router.settle
  settle-delivery id f = elim (Option-cases (r.owners id)) [
    | inl e ↦ ground (arith, e, f)
    | inr (p, e) ↦ ground (arith, e, f)
  ]
