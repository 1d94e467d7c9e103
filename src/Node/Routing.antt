-- ===== src/Node/Routing.antt =====
-- What the router, the supervisor and the servers know of one identifier, by the action that
-- accepted it.
pub mod Parts
pub mod Steps
pub mod Calls
use kinova_gen3_ros.Common.{
  ℕ, ◌≡◌, ◌≤◌, ◌+◌, refl, sym, ap, ◌∙◌, Bool, true, false, ◌||◌, Option, none, some, ◌==◌, ℕ_eq,
  arith, Bool-cases, inl, inr, if_yes, if_no, if◌then◌else◌, update,
}
use mathlib.Core.Path.{subst}
use kinova_gen3_ros.Driver.{GoalId, TrajectoryResult}
use kinova_gen3_ros.PlannedMove.Server.{Track}
use kinova_gen3_ros.PlannedMove.Terminals.{Sound, is_unborn}
use kinova_gen3_ros.PlannedMove.Terminals.Handover.{Linked}
use kinova_gen3_ros.PlannedMove.Terminals.Handover.Moves.{settle-Linked}
use kinova_gen3_ros.Backend.Goals.{terminals}
use kinova_gen3_ros.Router.{Delivery, or_default}
use kinova_gen3_ros.Node.{Port, trajectory_action, goto, Node}
use kinova_gen3_ros.Node.Trajectories.{entered}

abbrev pub present : {A : Type 0} → Option A → Bool
present none = false
present (some x) = true

-- The router knows no owner but this one.
abbrev pub Registered : Port → Option Port → Type 0
Registered p none = Unit
Registered p (some q) = q ≡ p

module _ {W : Type 0} where
  abbrev pub Unborn : Track W → Type 0
  Unborn t = is_unborn t.thread ≡ true

  -- A result on its way goes to this port, for this goal.
  abbrev pub Addressed : GoalId → Port → Option (Delivery Port (TrajectoryResult W)) → Type 0
  Addressed id p none = Unit
  Addressed id p (some c) =
      (r : TrajectoryResult W) × (c ≡ record { port = p; id = id; payload = r })

  -- The router's owner of a goal, whether the supervisor holds it, its result on the way, its tracks
  -- at the GoTo servers, and its handles and terminals at the trajectory action.
  abbrev pub At :
      GoalId
      → Option Port
      → Option Port
      → Bool
      → Option (Delivery Port (TrajectoryResult W))
      → (ℕ → Track W)
      → ℕ
      → ℕ
      → Type 0
  At id none w h a ts e m =
      (w ≡ none) × (h ≡ false) × (a ≡ none) × (e + m ≡ 0) × ((s : ℕ) → Unborn (ts s))
  At id (some trajectory_action) w h a ts e m =
      (w ≡ none)
      × Addressed id trajectory_action a
      × (h ≡ true → a ≡ none)
      × (e + m ≡ 1)
      × (e ≡ 1 → (h || present a) ≡ true)
      × ((s : ℕ) → Unborn (ts s))
  At id (some (goto s)) w h a ts e m =
      Registered (goto s) w
      × Addressed id (goto s) a
      × Linked (ts s) (present w) h (present a)
      × (e + m ≡ 0)
      × ((q : ℕ) → (s == q) ≡ false → Unborn (ts q))
      × (is_unborn (ts s).thread ≡ false)

  abbrev pub PlacedAs : Node W → GoalId → Option Port → Type 0
  PlacedAs n id o =
      At id o (n.router.owners id) (n.held id) (n.arriving id) (n.servers id)
        (entered (n.backend.handles id)) (terminals id n.backend.log)

  abbrev pub Placed : Node W → GoalId → Type 0
  Placed n id = PlacedAs n id (n.origin id)

  pub record Routed (n : Node W) : Type 0 where
    pub falls_through : n.router.default_port ≡ trajectory_action
    pub sound : (id : GoalId) (s : ℕ) → Sound (n.servers id s)
    pub placed : (id : GoalId) → Placed n id

Registered-here :
    (s0 s : ℕ)
    → s0 ≡ s
    → (reg : Bool) (w : Option Port) → Registered (goto s0) w
    → Registered (goto s0) (if reg then some (goto s) else w)
Registered-here s0 s y true w r = ap goto (sym y)
Registered-here s0 s y false w r = r

registered-flag :
    (s : ℕ) (reg : Bool) (w : Option Port)
    → present (if reg then some (goto s) else w) ≡ (present w || reg)
registered-flag s true none = refl
registered-flag s true (some p) = refl
registered-flag s false none = refl
registered-flag s false (some p) = refl

held-flag : (hand h : Bool) → (if hand then true else h) ≡ (h || hand)
held-flag true true = refl
held-flag true false = refl
held-flag false true = refl
held-flag false false = refl

not-sym : (i j : ℕ) → (i == j) ≡ false → (j == i) ≡ false
not-sym i j n = ground (arith, n)

module _ {A : Type 0} (f : ℕ → A) (i j : ℕ) (v : A) where
  pub update_self : i ≡ j → update f i v j ≡ v
  update_self e = if_yes v (f j) ((ℕ_eq.equals_iff i j).1 e)

  pub update_other : (i == j) ≡ false → update f i v j ≡ f j
  update_other n = if_no v (f j) n

module _ {W : Type 0} (id : GoalId) (w : Option Port) (h : Bool)
    (a : Option (Delivery Port (TrajectoryResult W))) (ts : ℕ → Track W) (e m : ℕ) where
  -- A step of the trajectory action.
  pub follow-At :
      (o : Option Port) (e' m' : ℕ)
      → e' + m' ≡ e + m
      → e' ≤ e
      → At id o w h a ts e m
      → At id o w h a ts e' m'
  follow-At none e' m' t f p = (p.0, p.1, p.2, t ∙ p.3, p.4)
  follow-At (some trajectory_action) e' m' t f p =
      (p.0, p.1, p.2, t ∙ p.3, λ y. p.4 (omega (arith, p.3)), p.5)
  follow-At (some (goto s)) e' m' t f p = (p.0, p.1, p.2, t ∙ p.3, p.4, p.5)

  update-Unborn :
      (s : ℕ) (t' : Track W) (P : ℕ → Type 0)
      → ((q : ℕ) → P q → Unborn (ts q))
      → (P s → Unborn t')
      → (q : ℕ) → P q
      → Unborn (update ts s t' q)
  update-Unborn s t' P all here q p = elim (Bool-cases (s == q)) [
    | inl y ↦ rw (if_yes t' (ts q) y) (here (subst P (sym ((ℕ_eq.equals_iff s q).0 y)) p))
    | inr n ↦ rw (if_no t' (ts q) n) (all q p)
  ]

  -- A step of one GoTo server about a goal, which may register the server and hand the goal over.
  pub track-At :
      (o : Option Port) (s : ℕ) (t' : Track W) (reg hand : Bool)
      → is_unborn t'.thread ≡ is_unborn (ts s).thread
      → (Unborn (ts s) → (reg ≡ false) × (hand ≡ false))
      → ((o' h' a' : Bool) → Linked (ts s) o' h' a' → Linked t' (o' || reg) (h' || hand) a')
      → At id o w h a ts e m
      → At id o (if reg then some (goto s) else w) (if hand then true else h) a (update ts s t') e m
  track-At none s t' reg hand b c l p =
      let (r, f) = c (p.4 s) in
      let born : Unborn t' = b ∙ p.4 s in
      rw (r, f)
        (
          p.0,
          p.1,
          p.2,
          p.3,
          λ q. update-Unborn s t' (λ _. Unit {0}) (λ k _. p.4 k) (λ _. born) q tt,
        )
  track-At (some trajectory_action) s t' reg hand b c l p =
      let (r, f) = c (p.5 s) in
      let born : Unborn t' = b ∙ p.5 s in
      rw (r, f)
        (
          p.0,
          p.1,
          p.2,
          p.3,
          p.4,
          λ q. update-Unborn s t' (λ _. Unit {0}) (λ k _. p.5 k) (λ _. born) q tt,
        )
  track-At (some (goto s0)) s t' reg hand b c l p = elim (Bool-cases (s0 == s)) [
    | inl y ↦
        let same : s0 ≡ s = (ℕ_eq.equals_iff s0 s).0 y in
        (
          Registered-here s0 s same reg w p.0,
          p.1,
          subst
              (λ t.
                Linked t (present (if reg then some (goto s) else w)) (if hand then true else h)
                  (present a))
              (sym (update_self ts s s0 t' (sym same)))
              (rw (registered-flag s reg w, held-flag hand h)
                (l (present w) h (present a)
                  (subst (λ q. Linked (ts q) (present w) h (present a)) same p.2))),
          p.3,
          update-Unborn s t' (λ q. (s0 == q) ≡ false) p.4 (λ f. absurd (cc (sym y ∙ f))),
          subst (λ t. is_unborn t.thread ≡ false) (sym (update_self ts s s0 t' (sym same)))
              (b ∙ subst (λ q. is_unborn (ts q).thread ≡ false) same p.5),
        )
    | inr n ↦
        let (r, f) = c (p.4 s n) in
        let born : Unborn t' = b ∙ p.4 s n in
        rw (r, f)
          (
            p.0,
            p.1,
            subst (λ t. Linked t (present w) h (present a))
                (sym (update_other ts s s0 t' (not-sym s0 s n))) p.2,
            p.3,
            update-Unborn s t' (λ q. (s0 == q) ≡ false) p.4 (λ _. born),
            subst (λ t. is_unborn t.thread ≡ false) (sym (update_other ts s s0 t' (not-sym s0 s n)))
                p.5,
          )
  ]

  owned-port :
      (s : ℕ) (v : Option Port) (x : Bool) {r : TrajectoryResult W}
      → Linked (ts s) (present v) true x
      → Registered (goto s) v
      → ◌≡◌ {A = Delivery Port (TrajectoryResult W)}
          (record { port = or_default trajectory_action v; id = id; payload = r })
          (record { port = goto s; id = id; payload = r })
  owned-port s none x l g = absurd (ground (arith, l.before, l.after))
  owned-port s (some q) x l g = rw g refl

  -- GoalRouter::settle for a goal that the supervisor holds.
  pub settle-At :
      (o : Option Port) (r : TrajectoryResult W)
      → h ≡ true
      → At id o w h a ts e m
      → At id o none false
          (some (record { port = or_default trajectory_action w; id = id; payload = r }))
          ts
          e
          m
  settle-At none r y p = cc
  settle-At (some trajectory_action) r y p =
      (refl, (r, rw p.0 refl), λ f. absurd (cc f), p.3, λ _. refl, p.5)
  settle-At (some (goto s)) r y p =
      let l : Linked (ts s) (present w) true (present a) =
        subst (λ x. Linked (ts s) (present w) x (present a)) y p.2 in
      (
        tt,
        (r, owned-port s w (present a) l p.0),
        settle-Linked (ts s) (present w) (present a) l,
        p.3,
        p.4,
        p.5,
      )
