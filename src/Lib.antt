-- ===== src/Lib.antt =====
-- Verification of the ROS 2 shell of the Kinova Gen3 driver (kinova_gen3_ros2).
--
-- The shell stands between ROS clients and the driver library kinova_lowlevel. Goals for a motion
-- come in through the trajectory action (Ros2Backend) or the GoTo actions (PlannedMoveServer, which
-- plans with cuRobo first); the GoalRouter sends the supervisor's feedback and results back to the
-- server that owns the goal; the arbitration server decides who may command, and carries the e-stop;
-- the stream server opens sessions for setpoints. Beside them stand the contact detection server,
-- whose latched stop makes the others refuse work, the gripper and link servers, the speed scale
-- parameter, and the node's main, which reads the command line and the parameters and decides
-- whether the arm is driven at all. The driver library, rclcpp, the message packages and the planner
-- are not part of the repository: they are parameters, with documented behaviour as named hypotheses
-- (Externals, and the sinks of each server).
--
-- Files, and the code under kinova_gen3_ros2/ that each models:
--   Common, Common/*          shared lists, tests, texts, integers and maps
--   Driver, Messages          value types of the driver library and of the ROS messages
--   Externals                 doubles and package constants as parameters
--   Router, Router/History    src/goal_router.cpp
--   Node, Node/*              the router, the trajectory action and the GoTo servers as main of
--                             src/bringup_node.cpp connects them
--   Mapping, Mapping/*        src/message_mapping.cpp, include/.../joint_point.h
--   Arbitration/*             src/arbitration_server.cpp
--   Planner, Planner/*        src/curobo_plan_client.cpp
--   Legs, Legs/*              include/.../plan_legs.h
--   PlannedMove, PlannedMove/* include/.../planned_move_server.h
--   Backend, Backend/*        src/ros2_backend.cpp
--   Stream, Stream/*          src/stream_server.cpp
--   GoTo, GoTo/*              include/.../goto_*_server.h
--   Diagnostics               the pages that every server fills
--   Contact, Contact/*        src/contact_server.cpp; Contact/Params: src/contact_params.cpp
--   Gripper                   src/gripper_server.cpp
--   Link, Link/*              src/link_server.cpp
--   Speed, Speed/*            src/speed_scale_param.cpp
--   Description, Description/* src/robot_description.cpp
--   Bringup, Bringup/*        src/bringup_node.cpp; Bringup/Wiring: what its parts are handed;
--                             Bringup/Run: from the end of its setup on
--   Tests, Tests/*            concrete parameters, and the theorems applied to them
--
-- State is passed explicitly: each server is a record of its fields, each handler a function named
-- as in the code. Histories are lists of callbacks, newest first, in any order. The GoTo lifecycle
-- is cut finer, at every hold of its mutex and every call to the outside, so that its threads
-- interleave (handle_accepted alone is one step); a step whose thread is not at that point changes
-- nothing. What its environment promises is built into the steps: a goal's identifier is new when it
-- is accepted, the planner's client answers a goal once, and the supervisor settles a goal only
-- after it was handed it.
-- The session handlers of the stream server and its timer are cut in the same way (Stream/Threads).
-- In the whole node (Node) these steps run beside those of the trajectory action, and the
-- supervisor's results take two steps, through the router and at the server.
--
-- The chain of legs runs on fuel one larger than the number of targets, each leg using one. The wait
-- of /clear_faults runs on 501 rounds, one for each 20 ms of its ten seconds
-- and the first; the wait for the robot's model runs on fuel that is given, since a round of it may
-- be of any length. Printing a number uses one round for each digit. Numbers are unbounded, except
-- where the code casts to int (Common.Int.to_int); the tick counter of the state topics is an int in
-- the code and is modelled below its overflow. Tokens and goal identifiers are 16 bytes read as one
-- number. A C++ exception is a value of Common.Results, and the ways in which main ends are
-- Bringup.Step, a read past the last argument among them.
--
-- Not modelled: the wiring of the node (constructors of ROS entities, callback groups, the modes and
-- sinks that core's objects are given), beyond the configuration that Bringup/Wiring hands on,
-- launch files and descriptions, and the text of log messages. The exception that rclcpp raises at a
-- transition that it does not allow, which the code drops, is no step of the GoTo lifecycle, where
-- PlannedMove/Terminals/Legality is about it, nor of the trajectory action, whose cancel is one step.
-- Core's own changes of its stop are outside the histories of Arbitration.
pub mod Common
pub mod Driver
pub mod Messages
pub mod Externals
pub mod Diagnostics
pub mod Contact
pub mod Link
pub mod Gripper
pub mod Speed
pub mod Description
pub mod Bringup
pub mod Router
pub mod Mapping
pub mod Arbitration
pub mod Planner
pub mod Legs
pub mod PlannedMove
pub mod Backend
pub mod Stream
pub mod GoTo
pub mod Node
mod Tests
