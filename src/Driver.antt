-- ===== src/Driver.antt =====
-- The plain value types of the driver library (kinova_lowlevel) that the ROS shell fills and reads.
-- The library itself is not in the repository: these are its names and fields as this repository's
-- code uses them, a `JointVec` being the list of its entries and a `double` a value of `W`.
-- A `Token` and a `GoalId` are arrays of 16 bytes, read as one number; `Token{}` is 0.
use kinova_gen3_ros.Common.{ℕ, Bool, List, String}
use kinova_gen3_ros.Common.Int.{ℤ}

abbrev pub num_joints : ℕ
num_joints = 7

abbrev pub Token : Type 0
Token = ℕ

abbrev pub GoalId : Type 0
GoalId = ℕ

abbrev pub zero_token : Token
zero_token = 0

pub data ControlModeKind : Type 0 where
  position impedance torque velocity : ControlModeKind

pub data SetpointKind : Type 0 where
  joint_position ee_pose joint_torque joint_velocity ee_twist : SetpointKind

pub data GainsProfile : Type 0 where
  session_default soft medium stiff custom : GainsProfile

pub data Preemption : Type 0 where
  queue latest_wins : Preemption

-- The codes of `result_code` that the shell names; any other code is passed through.
pub data ResultCode : Type 0 where
  successful preempted planning_failed invalid_goal contact_stop stream_rejected : ResultCode
  other : ℤ → ResultCode

pub data ContactPhase : Type 0 where
  settling armed latched : ContactPhase

pub data ContactDetection : Type 0 where
  enforce observe : ContactDetection

pub data ContactProfile : Type 0 where
  default_profile sensitive loose custom_profile : ContactProfile

module _ (W : Type 0) where
  pub record CustomGains : Type 0 where
    pub kq : List W
    pub torque_limit : List W
    pub zeta : W

  pub record ImpedanceGains : Type 0 where
    pub profile : GainsProfile
    pub custom : CustomGains

  pub record JointWaypoint : Type 0 where
    pub q : List W
    pub t_s : W
    pub qd : List W
    pub qdd : List W

  pub record Trajectory : Type 0 where
    pub points : List JointWaypoint
    pub has_velocities : Bool
    pub has_accelerations : Bool

  pub record TrajectoryGoal : Type 0 where
    pub trajectory : Trajectory
    pub path_tolerance : List W
    pub goal_tolerance : List W
    pub goal_time_tolerance_s : W
    pub control_mode : ControlModeKind
    pub preemption : Preemption
    pub gains : ImpedanceGains
    pub sender_id : String
    pub token : Token
    pub speed_scale : W

  pub record TrajectoryFeedback : Type 0 where
    pub desired : List W
    pub actual : List W
    pub error : List W
    pub fraction_complete : W

  pub record TrajectoryResult : Type 0 where
    pub error_code : ResultCode
    pub error_string : String
    pub final_error : List W

  pub record ContactTrip : Type 0 where
    pub joint : ℤ
    pub r : List W
    pub theta : List W
    pub q : List W
    pub qd : List W

  pub record ContactStatus : Type 0 where
    pub phase : ContactPhase
    pub detection : ContactDetection
    pub theta : List W
    pub r : List W
    pub has_trip : Bool
    pub last : ContactTrip
    pub would_trips : ℕ
    pub bad_samples : ℕ

  pub record ContactState : Type 0 where
    pub enabled : Bool
    pub profile : ContactProfile
    pub status : ContactStatus

  pub record GripperCommand : Type 0 where
    pub position : W
    pub speed : W
    pub force : W

  pub record GripperSetpoint : Type 0 where
    pub command : GripperCommand
    pub token : Token

  pub record GripperState : Type 0 where
    pub position : W
    pub effort : W
    pub current : W
    pub present : Bool
