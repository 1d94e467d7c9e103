-- ===== src/Messages.antt =====
-- The ROS messages that the shell reads and writes (trajectory_msgs, control_msgs and
-- rammp_arm_interfaces, which are not in the repository), with the fields that its code uses.
use kinova_gen3_ros.Common.{ℕ, Bool, List, String}
use kinova_gen3_ros.Common.Int.{ℤ}
use kinova_gen3_ros.Driver.{Token, CustomGains, ResultCode}

-- builtin_interfaces/Duration: int32 and uint32.
pub record Duration : Type 0 where
  pub sec : ℤ
  pub nanosec : ℕ

module _ (W : Type 0) where
  pub record JointTrajectoryPoint : Type 0 where
    pub positions : List W
    pub velocities : List W
    pub accelerations : List W
    pub time_from_start : Duration

  pub record JointTrajectory : Type 0 where
    pub frame_id : String
    pub joint_names : List String
    pub points : List JointTrajectoryPoint

  pub record JointTolerance : Type 0 where
    pub name : String
    pub position : W

  -- `profile` is a uint8.
  pub record ImpedanceGainsMsg : Type 0 where
    pub profile : ℕ
    pub custom : CustomGains W

  -- `control_mode` and `preemption` are uint8.
  pub record ExecuteGoal : Type 0 where
    pub trajectory : JointTrajectory
    pub path_tolerance : List JointTolerance
    pub goal_tolerance : List JointTolerance
    pub goal_time_tolerance : Duration
    pub control_mode : ℕ
    pub preemption : ℕ
    pub gains : ImpedanceGainsMsg
    pub sender_id : String
    pub token : Token
    pub speed_scale : W

  pub record ExecuteFeedback : Type 0 where
    pub desired : JointTrajectoryPoint
    pub actual : JointTrajectoryPoint
    pub error : JointTrajectoryPoint
    pub fraction_complete : W

  -- The Result of every motion action.
  pub record MoveResult : Type 0 where
    pub error_code : ResultCode
    pub error_string : String
    pub final_error : JointTrajectoryPoint

  -- The Feedback of the GoTo actions.
  pub record MoveFeedback : Type 0 where
    pub phase : String
    pub planner_state : String
    pub fraction_complete : W
    pub actual : JointTrajectoryPoint

  pub record GripperSetpointMsg : Type 0 where
    pub position : W
    pub speed : W
    pub force : W
    pub token : Token

  pub record GripperStateMsg : Type 0 where
    pub position : W
    pub effort : W
    pub current : W
    pub present : Bool
