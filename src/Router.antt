-- ===== src/Router.antt =====
-- goal_router.h and goal_router.cpp: the Supervisor holds one ActionServerPort, and the router fans
-- its calls out by goal. `P` stands for the ports; a delivery is the call made on one of them. The
-- handlers hold the mutex over their whole access to `owners_`, so each is one step.
pub mod History
use kinova_gen3_ros.Common.{Option, none, some, update}
use kinova_gen3_ros.Driver.{GoalId}

pub record GoalRouter (P : Type 0) : Type 0 where
  pub default_port : P
  pub owners : GoalId → Option P

pub record Delivery (P A : Type 0) : Type 0 where
  pub port : P
  pub id : GoalId
  pub payload : A

module _ {P : Type 0} where
  unfoldable pub init : P → GoalRouter P
  init default_port = record { default_port = default_port; owners = λ _. none }

  unfoldable pub register_owner : GoalRouter P → GoalId → P → GoalRouter P
  register_owner r id owner = record r { owners = update r.owners id (some owner) }

  -- The owner of a goal, or the default port.
  abbrev pub or_default : P → Option P → P
  or_default d none = d
  or_default d (some p) = p

  unfoldable pub publish_feedback : {A : Type 0} → GoalRouter P → GoalId → A → Delivery P A
  publish_feedback r id fb = record {
    port = or_default r.default_port (r.owners id);
    id = id;
    payload = fb;
  }

  -- The override is cleared before the result is passed on.
  unfoldable pub settle : {A : Type 0} → GoalRouter P → GoalId → A → GoalRouter P × Delivery P A
  settle r id result = elim (r.owners id) [
    | none ↦ (r, record { port = r.default_port; id = id; payload = result })
    | some owner ↦ (
      record r { owners = update r.owners id none },
      record { port = owner; id = id; payload = result },
    )
  ]
