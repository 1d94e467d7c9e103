-- ===== src/Node.antt =====
-- The node as main of bringup_node.cpp puts it together: the supervisor holds one ActionServerPort,
-- the GoalRouter, which falls through to the trajectory action (Ros2Backend) and knows an owner for
-- the goals of the GoTo actions (PlannedMoveServer), numbered in main's order. The servers' own
-- threads, ROS and the supervisor's sampler thread interleave in any order. ROS gives a goal an
-- identifier that no action has had, and the supervisor settles a goal once, after it was handed it;
-- a step that is not possible then changes nothing.
pub mod Trajectories
pub mod Routing
pub mod Fates
pub mod Completion
use kinova_gen3_ros.Common.{
  ℕ, Bool, true, false, List, [], ◌∷◌, Option, none, some, ◌==◌, ℕ_eq, if◌then◌else◌, update,
}
use kinova_gen3_ros.Common.Text.{String}
use kinova_gen3_ros.Driver.{GoalId, TrajectoryFeedback, TrajectoryResult}
use kinova_gen3_ros.Messages.{ExecuteGoal}
use kinova_gen3_ros.Externals.{Double, Packages}
use kinova_gen3_ros.Planner.{Outcome}
use kinova_gen3_ros.PlannedMove.{MoveGoal}
use kinova_gen3_ros.PlannedMove.Server.{Thread, Track, accepts, feedback, settle_locks, fresh, move}
use kinova_gen3_ros.PlannedMove.Server.{Event as ServerEvent}
use kinova_gen3_ros.PlannedMove.Terminals.Handover.{is_own, registers_now, hands_now}
use kinova_gen3_ros.Backend.{Backend, CommandSink, handle_accepted, handle_cancel}
use kinova_gen3_ros.Backend as Backend
use kinova_gen3_ros.Router.{GoalRouter, Delivery, init, register_owner}
use kinova_gen3_ros.Router as Router

-- The implementations of ActionServerPort.
pub data Port : Type 0 where
  trajectory_action : Port
  goto : ℕ → Port

-- `origin` says under which action ROS accepted an identifier, `held` which goals the supervisor has
-- been handed and not settled, `arriving` which results the router has passed on and the server has
-- not taken yet.
pub record Node (W : Type 0) : Type 0 where
  pub router : GoalRouter Port
  pub servers : GoalId → ℕ → Track W
  pub backend : Backend W
  pub origin : GoalId → Option Port
  pub held : GoalId → Bool
  pub arriving : GoalId → Option (Delivery Port (TrajectoryResult W))

pub data Event (W : Type 0) : Type 0 where
  accepts_move : ℕ → GoalId → MoveGoal W → Event W  -- a GoTo goal accepted
  accepts_trajectory : GoalId → ExecuteGoal W → Event W  -- a trajectory goal accepted
  acts : ℕ → GoalId → ServerEvent W → Event W  -- a step of a GoTo server
  cancels : Option (CommandSink W) → GoalId → Event W  -- a cancel of a trajectory goal
  feeds : GoalId → TrajectoryFeedback W → Event W  -- feedback from the supervisor
  settles : GoalId → TrajectoryResult W → Event W  -- its result, as far as the router
  arrives : GoalId → Event W  -- the result at the server

-- The router under a step of a GoTo server's thread, and the goals that the supervisor holds.
abbrev pub route : Bool → ℕ → GoalId → GoalRouter Port → GoalRouter Port
route true s id r = register_owner r id (goto s)
route false s id r = r

abbrev pub hold : Bool → GoalId → (GoalId → Bool) → GoalId → Bool
hold true id held = update held id true
hold false id held = held

module _ {W : Type 0} where
  -- A new identifier is taken, any other ignored.
  abbrev pub when_new : Option Port → Node W → Node W → Node W
  when_new none n' n = n'
  when_new (some p) n' n = n

  -- GoalRouter::settle, called by the supervisor for a goal that it holds.
  abbrev pub route_result : Bool → GoalId → TrajectoryResult W → Node W → Node W
  route_result false id r n = n
  route_result true id r n = record n {
    router = (Router.settle n.router id r).0;
    held = update n.held id false;
    arriving = update n.arriving id (some (Router.settle n.router id r).1);
  }

  unfoldable pub settle : GoalId → TrajectoryResult W → Node W → Node W
  settle id r n = route_result (n.held id) id r n

  unfoldable pub cancel_trajectory : Option (CommandSink W) → GoalId → Node W → Node W
  cancel_trajectory sink id n = record n { backend = (handle_cancel sink id n.backend).0 }

module _ {W : Type 0} ⦃d : Double W⦄ ⦃k : Packages W⦄ (arm_joint_names : List String)
    (check_plan : ℕ → Outcome W → Option String) where
  -- One step of one goal of a GoTo server.
  abbrev pub move_at : ℕ → GoalId → ServerEvent W → Node W → Node W
  move_at s id e n = record n {
    servers =
        update n.servers id
          (update (n.servers id) s (move arm_joint_names (check_plan s) e (n.servers id s)));
  }

  unfoldable pub accept_move : ℕ → GoalId → MoveGoal W → Node W → Node W
  accept_move s id g n =
      when_new (n.origin id)
        (record (move_at s id (accepts g) n) { origin = update n.origin id (some (goto s)) }) n

  unfoldable pub accept_trajectory : GoalId → ExecuteGoal W → Node W → Node W
  accept_trajectory id g n =
      when_new (n.origin id)
        (record n {
          backend = handle_accepted id g n.backend;
          origin = update n.origin id (some trajectory_action);
          held = update n.held id true;
        })
        n

  unfoldable pub act : ℕ → GoalId → ServerEvent W → Node W → Node W
  act s id e n =
      let th = (n.servers id s).thread in
      if is_own e
      then record (move_at s id e n) {
        router = route (registers_now e th) s id n.router;
        held = hold (hands_now e th) id n.held;
      }
      else n

  abbrev pub feed_port : Port → GoalId → TrajectoryFeedback W → Node W → Node W
  feed_port trajectory_action id fb n = record n {
    backend = Backend.publish_feedback id fb n.backend;
  }
  feed_port (goto s) id fb n = move_at s id feedback n

  unfoldable pub feed : GoalId → TrajectoryFeedback W → Node W → Node W
  feed id fb n = feed_port (Router.publish_feedback n.router id fb).port id fb n

  -- ActionServerPort::settle
  abbrev pub settle_port : Port → GoalId → TrajectoryResult W → Node W → Node W
  settle_port trajectory_action id r n = record n { backend = Backend.settle id r n.backend }
  settle_port (goto s) id r n = move_at s id (settle_locks r) n

  abbrev pub deliver : Option (Delivery Port (TrajectoryResult W)) → GoalId → Node W → Node W
  deliver none id n = n
  deliver (some c) id n =
      settle_port c.port c.id c.payload (record n { arriving = update n.arriving id none })

  unfoldable pub arrive : GoalId → Node W → Node W
  arrive id n = deliver (n.arriving id) id n

  unfoldable pub step : Event W → Node W → Node W
  unfolding accept_move accept_trajectory act cancel_trajectory feed settle arrive
  step (accepts_move s id g) n = accept_move s id g n
  step (accepts_trajectory id g) n = accept_trajectory id g n
  step (acts s id e) n = act s id e n
  step (cancels sink id) n = cancel_trajectory sink id n
  step (feeds id fb) n = feed id fb n
  step (settles id r) n = settle id r n
  step (arrives id) n = arrive id n

  unfoldable pub init_node : Node W
  init_node = record {
    router = init trajectory_action;
    servers = λ id s. fresh;
    backend = record { handles = λ id. none; log = [] };
    origin = λ id. none;
    held = λ id. false;
    arriving = λ id. none;
  }

  -- The node after a history, its newest step first.
  unfoldable pub after : List (Event W) → Node W
  unfolding step init_node
  after [] = init_node
  after (e ∷ older) = step e (after older)
