-- ===== src/Router/History.antt =====
-- goal_router.cpp: the router against the history of its calls.
use kinova_gen3_ros.Common.{◌≡◌, refl, List, [], ◌∷◌, ◌==◌, ℕ_eq, if◌then◌else◌, arith}
use kinova_gen3_ros.Driver.{GoalId}
use kinova_gen3_ros.Router.{
  GoalRouter, Delivery, init, register_owner, publish_feedback, settle, or_default,
}

-- The calls that the router receives.
pub data Call (P A : Type 0) : Type 0 where
  registers : GoalId → P → Call P A
  feeds settles : GoalId → A → Call P A

module _ {P A : Type 0} where
  pub step : GoalRouter P → Call P A → GoalRouter P
  step r (registers id p) = register_owner r id p
  step r (feeds id a) = r
  step r (settles id a) = (settle r id a).0

  -- The state after a history, its newest call first.
  pub after : P → List (Call P A) → GoalRouter P
  after d [] = init d
  after d (c ∷ older) = step (after d older) c

  -- The last port registered for the goal since it was last settled, else the default.
  pub last_owner : P → List (Call P A) → GoalId → P
  last_owner d [] id = d
  last_owner d (registers j p ∷ older) id = if j == id then p else last_owner d older id
  last_owner d (feeds j a ∷ older) id = last_owner d older id
  last_owner d (settles j a ∷ older) id = if j == id then d else last_owner d older id

  default-after : (d : P) (h : List (Call P A)) → (after d h).default_port ≡ d
  unfolding after step settle register_owner init
  default-after d [] = refl
  default-after d (registers j p ∷ h) = default-after d h
  default-after d (feeds j a ∷ h) = default-after d h
  default-after d (settles j a ∷ h) = ground (arith, default-after d h)

  owner-after :
      (d : P) (h : List (Call P A)) (id : GoalId)
      → or_default (after d h).default_port ((after d h).owners id) ≡ last_owner d h id
  unfolding after step settle register_owner init last_owner
  owner-after d [] id = refl
  owner-after d (registers j p ∷ h) id = ground (arith, owner-after d h id)
  owner-after d (feeds j a ∷ h) id = owner-after d h id
  owner-after d (settles j a ∷ h) id = ground (arith, owner-after d h id, default-after d h)

  -- After any history of calls, feedback and a result for a goal both go to the port registered
  -- last for it since its last settle, or to the default port when there is none, with the goal's
  -- id and the payload unchanged.
  pub deliveries_follow_history :
      (d : P) (h : List (Call P A)) (id : GoalId) (a : A)
      → let called : Delivery P A = record { port = last_owner d h id; id = id; payload = a } in
        (publish_feedback (after d h) id a ≡ called) × ((settle (after d h) id a).1 ≡ called)
  unfolding publish_feedback settle
  deliveries_follow_history d h id a =
      (ground (arith, owner-after d h id), ground (arith, owner-after d h id))
