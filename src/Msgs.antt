-- ===== src/Msgs.antt =====
-- The ROS messages that the nodes exchange, with the fields that the nodes read or write. They
-- are declared by geometry_msgs, sensor_msgs and teleop_msgs; a stamp is a time in nanoseconds.
use Prim.Native.String.{String}
use digital_twin_based_on_un.Common.{ℕ, Bool, List}

abbrev pub Vector3 : Type 0 → Type 0
Vector3 F = F × F × F

-- geometry_msgs/TwistStamped
pub record TwistStamped (F : Type 0) : Type 0 where
  pub stamp : ℕ
  pub frame_id : String
  pub linear : Vector3 F
  pub angular : Vector3 F

-- geometry_msgs/PoseStamped
pub record PoseStamped (F : Type 0) : Type 0 where
  pub stamp : ℕ
  pub frame_id : String
  pub position : Vector3 F
  pub orientation : F × F × F × F

-- sensor_msgs/JointState
pub record JointState (F : Type 0) : Type 0 where
  pub stamp : ℕ
  pub name : List String
  pub position : List F
  pub velocity : List F
  pub effort : List F

-- The values of `control_mode` in teleop_msgs/TeleopCommand.
abbrev pub mode_idle : ℕ
mode_idle = 0

abbrev pub mode_joint_velocity : ℕ
mode_joint_velocity = 2

abbrev pub mode_cartesian_pose : ℕ
mode_cartesian_pose = 3

abbrev pub mode_cartesian_twist : ℕ
mode_cartesian_twist = 4

-- teleop_msgs/TeleopCommand
pub record TeleopCommand (F : Type 0) : Type 0 where
  pub stamp : ℕ
  pub frame_id : String
  pub robot_name : String
  pub sequence_id : ℕ
  pub control_mode : ℕ
  pub enable : Bool
  pub emergency_stop : Bool
  pub command_frame : String
  pub joint_command : JointState F
  pub target_pose : PoseStamped F
  pub target_twist : TwistStamped F

-- teleop_msgs/TeleopStatus
pub record TeleopStatus (F : Type 0) : Type 0 where
  pub active_mode : ℕ
  pub enabled : Bool
  pub emergency_stop : Bool
  pub safety_ok : Bool
  pub input_alive : Bool
  pub command_timeout : Bool
  pub command_age : F
  pub error_code : ℕ
  pub last_stop_reason : String
  pub message : String
