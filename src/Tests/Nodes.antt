-- ===== src/Tests/Nodes.antt =====
-- Witnesses: the whole node, with a GoTo goal and a trajectory goal at once.
use kinova_gen3_ros.Common.{ℕ, ◌≡◌, ◌≢◌, refl, List, [], ◌∷◌, ◌++◌, replicate, Option, some}
use kinova_gen3_ros.Common.Text.{String}
use kinova_gen3_ros.Driver.{TrajectoryResult}
use kinova_gen3_ros.Mapping.Names.{joint_names_rejection}
use kinova_gen3_ros.Planner.{Outcome}
use kinova_gen3_ros.PlannedMove.{verdict, malformed_point}
use kinova_gen3_ros.PlannedMove.Server as Server
use kinova_gen3_ros.PlannedMove.Server.{plan_done, advances, settle_ends, cancel_locks}
use kinova_gen3_ros.PlannedMove.Terminals.Handover.{is_own, registers_now, hands_now}
use kinova_gen3_ros.Backend as Backend
use kinova_gen3_ros.Router as Router
use kinova_gen3_ros.Router.{Delivery}
use kinova_gen3_ros.Node as Node
use kinova_gen3_ros.Node.{
  Port, trajectory_action, goto, Event, accepts_move, accepts_trajectory, acts, settles, arrives,
}
use kinova_gen3_ros.Node.Completion.{closing, goal_completes}
use kinova_gen3_ros.Node.Fates.{terminals, result_reaches_owner, goal_ends_once}
use kinova_gen3_ros.Tests.{thousandths, gen3, execute, arm_names}
use kinova_gen3_ros.Tests.Motions.{go, plan_found, unchecked, willing, success}

-- Goal 1 is planned by the third GoTo server and handed over while the trajectory goal 2 runs; both
-- results are then passed on by the router. Newest step first.
abbrev both_settled : List (Event ℕ)
both_settled =
    settles 2 success ∷ settles 1 success ∷ replicate 8 (acts 2 1 (advances willing))
    ++ (acts 2 1 (plan_done plan_found) ∷ accepts_trajectory 2 execute ∷ accepts_move 2 1 go ∷ [])

abbrev each_server : ℕ → Outcome ℕ → Option String
each_server s = unchecked

abbrev to_third : Delivery Port (TrajectoryResult ℕ)
to_third = record { port = goto 2; id = 1; payload = success }

result_reaches_owner_example :
    ((Node.after arm_names each_server both_settled).origin 1 ≡ some to_third.port)
    × (to_third.id ≡ 1)
unfolding Node.after Node.step Server.on_accepted Server.move is_own registers_now hands_now
    Server.on_plan_done Server.advance verdict malformed_point joint_names_rejection
    Router.register_owner Router.settle Router.init Node.init_node Node.accept_move Node.act
    Node.settle Node.accept_trajectory Backend.handle_accepted
result_reaches_owner_example =
    result_reaches_owner arm_names each_server both_settled 1 to_third refl

-- The third server has accepted goal 1 and it is being canceled; it is then brought to its end.
abbrev accepted_move : List (Event ℕ)
accepted_move = acts 2 1 cancel_locks ∷ accepts_trajectory 2 execute ∷ accepts_move 2 1 go ∷ []

goal_completes_example :
    (terminals
        (goto 2)
        (Node.after arm_names each_server (closing 2 1 plan_found willing success ++ accepted_move))
        1
      ≡ 1)
    × ((q : Port)
        → q ≢ goto 2
        → terminals q
            (Node.after arm_names each_server
              (closing 2 1 plan_found willing success ++ accepted_move))
            1
          ≡ 0)
unfolding Node.after Node.step Server.on_accepted Server.move is_own registers_now hands_now
    Router.init Node.init_node Node.accept_move Node.act Node.accept_trajectory
    Backend.handle_accepted Server.lock_cancel
goal_completes_example =
    goal_completes arm_names each_server accepted_move 2 1 plan_found willing success refl

abbrev both_ended : List (Event ℕ)
both_ended = acts 2 1 settle_ends ∷ arrives 2 ∷ arrives 1 ∷ both_settled

goal_ends_once_example :
    (terminals (goto 2) (Node.after arm_names each_server both_ended) 1 ≡ 1)
    × ((q : Port) → q ≢ goto 2 → terminals q (Node.after arm_names each_server both_ended) 1 ≡ 0)
unfolding Node.after Node.step Server.on_accepted Server.move is_own registers_now hands_now
    Server.on_plan_done Server.advance verdict malformed_point joint_names_rejection
    Router.register_owner Router.settle Router.init Node.init_node Node.accept_move Node.act
    Node.settle Node.accept_trajectory Backend.handle_accepted Backend.settle Node.arrive
    Server.lock_settle Server.end_settle
goal_ends_once_example =
    goal_ends_once arm_names each_server both_ended 1 (goto 2) refl refl refl (refl, refl)
