-- ===== src/Stream/Setpoints.antt =====
-- stream_server.cpp: the five setpoint callbacks, which pass a message on to the sink with its
-- token. The sink is a parameter over an abstract state `S`.
use kinova_gen3_ros.Common.{List, [], ◌∷◌}
use kinova_gen3_ros.Driver.{Token}

-- Setpoint messages: `values` is float64[7].
pub record JointSetpointMsg (W : Type 0) : Type 0 where
  pub values : List W
  pub token : Token

pub record Vector3 (W : Type 0) : Type 0 where
  pub x : W
  pub y : W
  pub z : W

-- geometry_msgs/Quaternion, and Eigen::Quaterniond by its coefficients.
pub record Quaternion (W : Type 0) : Type 0 where
  pub x : W
  pub y : W
  pub z : W
  pub w : W

pub record PoseSetpointMsg (W : Type 0) : Type 0 where
  pub position : Vector3 W
  pub orientation : Quaternion W
  pub token : Token

pub record TwistSetpointMsg (W : Type 0) : Type 0 where
  pub linear : Vector3 W
  pub angular : Vector3 W
  pub token : Token

-- kinova_lowlevel's setpoints, with its Pose.
pub record JointSetpoint (W : Type 0) : Type 0 where
  pub values : List W
  pub token : Token

pub record CorePose (W : Type 0) : Type 0 where
  pub p : Vector3 W
  pub rotation : Quaternion W

pub record PoseSetpoint (W : Type 0) : Type 0 where
  pub pose : CorePose W
  pub token : Token

pub record TwistSetpoint (W : Type 0) : Type 0 where
  pub twist : List W
  pub token : Token

pub record SetpointSink (W S : Type 0) : Type 0 where
  pub setpoint_joint_position : S → JointSetpoint W → S
  pub setpoint_joint_velocity : S → JointSetpoint W → S
  pub setpoint_joint_torque : S → JointSetpoint W → S
  pub setpoint_pose : S → PoseSetpoint W → S
  pub setpoint_twist : S → TwistSetpoint W → S

module _ {W : Type 0} where
  -- All seven values are copied.
  unfoldable pub to_joint_vec : List W → List W
  to_joint_vec [] = []
  to_joint_vec (x ∷ a) = x ∷ to_joint_vec a

  -- Eigen's constructor takes w, x, y, z.
  abbrev pub quaterniond : W → W → W → W → Quaternion W
  quaterniond w x y z = record { x = x; y = y; z = z; w = w }

  unfoldable pub to_pose : Vector3 W → Quaternion W → CorePose W
  to_pose position orientation = record {
    p = record { x = position.x; y = position.y; z = position.z };
    rotation = quaterniond orientation.w orientation.x orientation.y orientation.z;
  }

  -- Core carries a twist as linear, then angular.
  unfoldable pub to_vector6 : Vector3 W → Vector3 W → List W
  to_vector6 linear angular =
      linear.x ∷ linear.y ∷ linear.z ∷ angular.x ∷ angular.y ∷ angular.z ∷ []

  unfoldable pub to_joint_setpoint : JointSetpointMsg W → JointSetpoint W
  unfolding to_joint_vec
  to_joint_setpoint m = record { values = to_joint_vec m.values; token = m.token }

module _ {W S : Type 0} (sink : SetpointSink W S) where
  unfoldable pub on_joint_position : JointSetpointMsg W → S → S
  unfolding to_joint_setpoint
  on_joint_position m s = sink.setpoint_joint_position s (to_joint_setpoint m)

  unfoldable pub on_joint_velocity : JointSetpointMsg W → S → S
  unfolding to_joint_setpoint
  on_joint_velocity m s = sink.setpoint_joint_velocity s (to_joint_setpoint m)

  unfoldable pub on_joint_torque : JointSetpointMsg W → S → S
  unfolding to_joint_setpoint
  on_joint_torque m s = sink.setpoint_joint_torque s (to_joint_setpoint m)

  unfoldable pub on_pose : PoseSetpointMsg W → S → S
  unfolding to_pose
  on_pose m s =
      sink.setpoint_pose s (record { pose = to_pose m.position m.orientation; token = m.token })

  unfoldable pub on_twist : TwistSetpointMsg W → S → S
  unfolding to_vector6
  on_twist m s =
      sink.setpoint_twist s (record { twist = to_vector6 m.linear m.angular; token = m.token })
