-- ===== src/Tests/Plans.antt =====
-- GoToEEPoses over two targets, from its request to the blend.
use kinova_gen3_ros.Common.{ℕ, ◌≡◌, refl, true, false, List, [], ◌∷◌, some, arith}
use kinova_gen3_ros.Common.Text.{to_string}
use kinova_gen3_ros.Common.Int.{pos}
use kinova_gen3_ros.Messages.{JointTrajectory}
use kinova_gen3_ros.Planner.{Outcome, dispatch}
use kinova_gen3_ros.Planner.Holds.{plan, blend, to_planner_all}
use kinova_gen3_ros.Legs.{
  Action, asks_cancel, plans, blends, done, plan_legs, checked, finish, finish_blend, end_of,
}
use kinova_gen3_ros.Legs.Feedback.{leg_planning}
use kinova_gen3_ros.GoTo.{Pose, PoseTarget, radii}
use kinova_gen3_ros.GoTo.Plans.{
  CuroboServers, start_ee_poses, poses_world, ask_pose, outcome_of, start_config,
}
use kinova_gen3_ros.GoTo.Plans.Visits.{AllVisit, blended_legs_visit}
use kinova_gen3_ros.Mapping.Trajectory.{copy_into}
use kinova_gen3_ros.Tests.{thousandths, gen3, arm_names, at_rest}

-- Plans whose one point is the position of the pose, and a blend that keeps the first leg.
abbrev leg_to : List ℕ → JointTrajectory ℕ
leg_to q = record {
  frame_id = "arm_mount";
  joint_names = arm_names;
  points =
      record {
        positions = q;
        velocities = [];
        accelerations = [];
        time_from_start = record { sec = pos 1; nanosec = 0 };
      }
      ∷ [];
}

abbrev planned_to : List ℕ → Outcome ℕ
planned_to q = record { ok = true; message = ""; trajectory = leg_to q; goal_mismatch_rad = 0 }

abbrev servers : CuroboServers ℕ
servers = record {
  plan_pose = λ g. planned_to (g.target).position;
  plan_joints = λ g. planned_to g.target_joints;
  blend_legs = λ g. planned_to [];
}

abbrev Ends : JointTrajectory ℕ → Pose ℕ → Type 0
Ends l p = end_of l ≡ p.position

abbrev target : ℕ → PoseTarget ℕ
target x = record {
  frame_id = "arm_mount";
  pose = record { position = x ∷ 0 ∷ 500 ∷ []; orientation = 0 ∷ 0 ∷ 0 ∷ 1000 ∷ [] };
  speed_scale = 500;
  orientation_hold = 1;
  blend_radius = 50;
}

abbrev two_targets : List (PoseTarget ℕ)
two_targets = target 300 ∷ target 400 ∷ []

abbrev two_legs : List (Action ℕ)
two_legs =
    asks_cancel
    ∷ plans 0 at_rest
    ∷ asks_cancel
    ∷ plans 1 (300 ∷ 0 ∷ 500 ∷ [])
    ∷ asks_cancel
    ∷ blends (leg_to (300 ∷ 0 ∷ 500 ∷ []) ∷ leg_to (400 ∷ 0 ∷ 500 ∷ []) ∷ [])
    ∷ done (planned_to [])
    ∷ []

two_legs_run : start_ee_poses servers true two_targets at_rest (λ n. some false) ≡ some two_legs
unfolding start_ee_poses poses_world plan_legs ask_pose outcome_of start_config plan blend checked
    finish finish_blend dispatch radii to_planner_all copy_into
two_legs_run = refl

blended_legs_visit_example : AllVisit (λ l t. Ends l (t.pose)) two_targets two_legs
blended_legs_visit_example =
    blended_legs_visit servers Ends (λ g good. refl) true two_targets at_rest (λ n. some false)
      (omega arith) two_legs two_legs_run

-- Feedback of the second of three legs.
second_leg :
    leg_planning true 1 3 "optimizing"
    ≡ some (record { phase = "planning"; planner_state = "leg 2/3: optimizing" })
unfolding leg_planning to_string
second_leg = refl
