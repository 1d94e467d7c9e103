-- ===== src/GoTo/Plans.antt =====
-- The five start_plan methods, and start_config: what a GoTo action asks the planner for. The cuRobo
-- action servers are a parameter, what they answer to each kind of goal. Each request is a dispatch
-- of its own, numbered by its leg (the blend by the number of the targets), on a client without
-- callbacks under way.
pub mod Visits
pub mod Blends
use kinova_gen3_ros.Common.{
  ℕ, Bool, true, List, [], ◌∷◌, map, Option, none, some, length, get_elem?,
}
use kinova_gen3_ros.Common.Text.{String}
use kinova_gen3_ros.Externals.{Double, Packages}
use kinova_gen3_ros.Mapping.Trajectory.{copy_into, zero_vec}
use kinova_gen3_ros.Planner.{Outcome, Call, done, cancels, failure, idle}
use kinova_gen3_ros.Planner.Holds.{
  PoseGoal, JointsGoal, BlendGoal, Sent, plan, plan_to_joints, blend,
}
use kinova_gen3_ros.Legs.{World, Action, plan_legs}
use kinova_gen3_ros.GoTo.{Pose, PoseTarget, JointTarget, radii, find_preset}

-- What the servers of cuRobo give for a goal; the hold's orientations are quaternions.
pub record CuroboServers (W : Type 0) : Type 0 where
  pub plan_pose : PoseGoal W (Pose W) → Outcome W
  pub plan_joints : JointsGoal W → Outcome W
  pub blend_legs : BlendGoal W (List W) → Outcome W

-- PlannedMoveServer::canceling, by the handle it finds: a goal no longer tracked counts as canceled.
abbrev pub canceling : Option Bool → Bool
canceling none = true
canceling (some is_canceling) = is_canceling

module _ {W : Type 0} ⦃d : Double W⦄ where
  -- start_config, of the configuration that the sink's state holds.
  unfoldable pub start_config : List W → List W
  start_config q = copy_into zero_vec q

  -- What on_done was told, when a request was refused before it was sent.
  abbrev pub told : List (Call W) → Outcome W
  told [] = failure ""
  told (done n o ∷ log) = o
  told (cancels handle ∷ log) = told log

  abbrev pub answer_goal : {G : Type 0} → (G → Outcome W) → Option G → List (Call W) → Outcome W
  answer_goal answer none log = told log
  answer_goal answer (some g) log = answer g

  -- The outcome of a request.
  unfoldable pub outcome_of : {G : Type 0} → (G → Outcome W) → Sent W G → Outcome W
  outcome_of answer s = answer_goal answer s.goal (s.client).log

module _ {W : Type 0} ⦃d : Double W⦄ ⦃k : Packages W⦄ (servers : CuroboServers W)
    (available : Bool) where
  -- One request of plan(), plan_to_joints() or blend(), and what comes of it.
  unfoldable pub ask_pose : ℕ → Pose W → List W → ℕ → Outcome W
  ask_pose n pose start hold = outcome_of servers.plan_pose (plan n available pose start hold idle)

  unfoldable pub ask_joints : ℕ → List W → List W → Outcome W
  ask_joints n target start =
      outcome_of servers.plan_joints (plan_to_joints n available target start idle)

  unfoldable pub start_ee_pose : Pose W → ℕ → List W → Outcome W
  start_ee_pose pose hold q = ask_pose 0 pose (start_config q) hold

  unfoldable pub start_joint_config : List W → List W → Outcome W
  start_joint_config target_joints q = ask_joints 0 target_joints (start_config q)

  -- `none` when registry_.at() throws.
  abbrev pub start_preset_at : Option (List W) → List W → Option (Outcome W)
  start_preset_at none q = none
  start_preset_at (some target) q = some (ask_joints 0 target (start_config q))

  unfoldable pub start_preset : List (String × List W) → String → List W → Option (Outcome W)
  start_preset registry name q = start_preset_at (find_preset registry name) q

  -- A leg to the k-th target; the chain asks for no leg without a target.
  abbrev pub pose_leg : ℕ → List W → Option (PoseTarget W) → Outcome W
  pose_leg n start none = failure ""
  pose_leg n start (some t) = ask_pose n t.pose start t.orientation_hold

  abbrev pub joints_leg : ℕ → List W → Option (JointTarget W) → Outcome W
  joints_leg n start none = failure ""
  joints_leg n start (some t) = ask_joints n t.target_joints start

  -- The functions that the two many-target actions hand to plan_legs.
  unfoldable pub poses_world : List (PoseTarget W) → (ℕ → Bool) → World W
  poses_world targets asked = record {
    answer = λ n start. pose_leg n start (get_elem? targets n);
    blended = λ legs. outcome_of servers.blend_legs (
        blend (length targets) available legs (radii (λ t. t.blend_radius) targets)
          (map (λ t. t.speed_scale) targets) (map (λ t. t.orientation_hold) targets)
          (map (λ t. (t.pose).orientation) targets) idle);
    canceling = asked;
  }

  unfoldable pub joints_world : List (JointTarget W) → (ℕ → Bool) → World W
  joints_world targets asked = record {
    answer = λ n start. joints_leg n start (get_elem? targets n);
    blended = λ legs. outcome_of servers.blend_legs (
        blend (length targets) available legs (radii (λ t. t.blend_radius) targets)
          (map (λ t. t.speed_scale) targets) [] [] idle);
    canceling = asked;
  }

  -- `tracked` tells, each time the chain asks, whether the goal is tracked, and then whether its
  -- handle is canceling.
  unfoldable pub start_ee_poses :
      List (PoseTarget W) → List W → (ℕ → Option Bool) → Option (List (Action W))
  start_ee_poses targets q tracked =
      plan_legs (poses_world targets (λ n. canceling (tracked n))) (length targets) (start_config q)

  unfoldable pub start_joint_configs :
      List (JointTarget W) → List W → (ℕ → Option Bool) → Option (List (Action W))
  start_joint_configs targets q tracked =
      plan_legs (joints_world targets (λ n. canceling (tracked n))) (length targets)
        (start_config q)
