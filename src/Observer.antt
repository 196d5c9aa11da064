-- ===== src/Observer.antt =====
-- The read-only observer of the command stream: the topics and subscriptions of
-- command_supervisor_ros2unity.py of digital_twin_on_unity_and_ros2/
-- digital_twin_on_unity_and_ros2/command_bridges/ under the repository's src/. Its two converting
-- callbacks stand in Bridges/Mirrors.
pub mod ReadOnly
mod Tests
use Prim.Native.String.{String}
use text.Mathlib.Text.{◌==◌ as str_eq}
use digital_twin_based_on_un.Common.{ℕ, List, [], ◌∷◌, ◌++◌, Option, none, some, if◌then◌else◌}
use digital_twin_based_on_un.Msgs.{
  TeleopCommand, TeleopStatus, JointState, PoseStamped, TwistStamped,
}
use digital_twin_based_on_un.Bridges.Mirrors.{
  CmdObservedUnity, CmdStatusUnity, command_callback, status_callback,
}

-- The parameters of the node.
pub record Topics : Type 0 where
  pub command_topic : String
  pub status_topic : String
  pub joint_velocity_topic : String
  pub joint_position_topic : String
  pub cartesian_pose_topic : String
  pub twist_topic : String

-- The defaults that `__init__` declares.
abbrev pub default_topics : Topics
default_topics = record {
  command_topic = "/teleop/command";
  status_topic = "/teleop/status";
  joint_velocity_topic = "/teleop/validated/joint_velocity";
  joint_position_topic = "/teleop/validated/joint_position";
  cartesian_pose_topic = "/teleop/validated/cartesian_pose";
  twist_topic = "/servo_node/delta_twist_cmds";
}

-- A message of each type that the node subscribes to.
pub data Message (F : Type 0) : Type 0 where
  teleop_command : TeleopCommand F → Message F
  teleop_status : TeleopStatus F → Message F
  joint_state : JointState F → Message F
  pose_stamped : PoseStamped F → Message F
  twist_stamped : TwistStamped F → Message F

-- A message that one of the six publishers sends.
pub data Observed (F : Type 0) : Type 0 where
  observed_command : CmdObservedUnity F → Observed F
  observed_status : CmdStatusUnity F → Observed F
  observed_joint_velocity : JointState F → Observed F
  observed_joint_position : JointState F → Observed F
  observed_cartesian_pose : PoseStamped F → Observed F
  observed_twist : TwistStamped F → Observed F

module _ {F : Type 0} where
  -- The topic of the publisher.
  abbrev pub topic_of : Observed F → String
  topic_of (observed_command m) = "/unity/cmd_observed/command"
  topic_of (observed_status m) = "/unity/cmd_observed/status"
  topic_of (observed_joint_velocity m) = "/unity/cmd_observed/joint_velocity"
  topic_of (observed_joint_position m) = "/unity/cmd_observed/joint_position"
  topic_of (observed_cartesian_pose m) = "/unity/cmd_observed/cartesian_pose"
  topic_of (observed_twist m) = "/unity/cmd_observed/twist"

  -- The callbacks of the subscriptions; a subscription sees messages of its own type only.
  abbrev pub observe_command : ℕ → Message F → List (Observed F)
  observe_command now (teleop_command m) = observed_command (command_callback now m) ∷ []
  observe_command now _ = []

  abbrev pub observe_status : ℕ → Message F → List (Observed F)
  observe_status now (teleop_status m) = observed_status (status_callback now m) ∷ []
  observe_status now _ = []

  abbrev pub observe_joint_velocity : ℕ → Message F → List (Observed F)
  observe_joint_velocity now (joint_state m) = observed_joint_velocity m ∷ []
  observe_joint_velocity now _ = []

  abbrev pub observe_joint_position : ℕ → Message F → List (Observed F)
  observe_joint_position now (joint_state m) = observed_joint_position m ∷ []
  observe_joint_position now _ = []

  abbrev pub observe_cartesian_pose : ℕ → Message F → List (Observed F)
  observe_cartesian_pose now (pose_stamped m) = observed_cartesian_pose m ∷ []
  observe_cartesian_pose now _ = []

  abbrev pub observe_twist : ℕ → Message F → List (Observed F)
  observe_twist now (twist_stamped m) = observed_twist m ∷ []
  observe_twist now _ = []

  -- The subscriptions in the order in which `__init__` creates them.
  abbrev pub subscriptions : Topics → List (String × (ℕ → Message F → List (Observed F)))
  subscriptions topics =
      (topics.command_topic, observe_command)
      ∷ (topics.status_topic, observe_status)
      ∷ (topics.joint_velocity_topic, observe_joint_velocity)
      ∷ (topics.joint_position_topic, observe_joint_position)
      ∷ (topics.cartesian_pose_topic, observe_cartesian_pose)
      ∷ (topics.twist_topic, observe_twist)
      ∷ []

  -- What a message on a topic makes the callbacks of a list of subscriptions publish.
  abbrev pub notify :
      List (String × (ℕ → Message F → List (Observed F)))
      → ℕ
      → String
      → Message F
      → List (Observed F)
  notify [] now topic m = []
  notify ((subscribed, callback) ∷ rest) now topic m =
      (if str_eq subscribed topic then callback now m else []) ++ notify rest now topic m

  -- The node over a sequence of messages, each with the clock reading of its callbacks.
  unfoldable pub observe : Topics → List (ℕ × String × Message F) → List (Observed F)
  observe topics [] = []
  observe topics ((now, topic, m) ∷ ms) =
      notify (subscriptions topics) now topic m ++ observe topics ms
