-- ===== src/Bridges/Subscriptions.antt =====
-- What `__init__` of ur_state_bridge_ros2unity.py connects: the six subscriptions with their
-- quality of service, and the three timers with their publishers. The log lines are left out.
use Prim.Native.String.{String}
use digital_twin_based_on_un.Common.{ℕ, Bool, true, false}
use digital_twin_based_on_un.Common.Floats.{Floats}
use digital_twin_based_on_un.Msgs.{PoseStamped}
use digital_twin_based_on_un.Topics.{QosProfile, latched_qos, streaming_qos}
use digital_twin_based_on_un.Params.StateBridge.{Settings}
use digital_twin_based_on_un.Bridges.Status.{
  WrenchStamped, RobotStatusUnity, StateBridge, Input, tcp_pose, mode_code, safety_code,
  program_running, scaling, wrench, publish_tcp_pose, publish_robot_status, publish_wrench,
}

-- The subscriptions, by their callbacks.
pub data Subscription : Type 0 where
  tcp_pose_callback robot_mode_callback safety_mode_callback : Subscription
  robot_program_running_callback speed_scaling_callback wrench_callback : Subscription

abbrev pub qos_of : Subscription → QosProfile
qos_of tcp_pose_callback = streaming_qos
qos_of robot_mode_callback = latched_qos
qos_of safety_mode_callback = latched_qos
qos_of robot_program_running_callback = latched_qos
qos_of speed_scaling_callback = streaming_qos
qos_of wrench_callback = streaming_qos

-- The timers, by their callbacks.
pub data Timer : Type 0 where
  tcp_pose_timer robot_status_timer wrench_timer : Timer

-- A message that one of the three publishers sends.
pub data Output (F : Type 0) : Type 0 where
  tcp_pose_out : PoseStamped F → Output F
  robot_status_out : RobotStatusUnity F → Output F
  wrench_out : WrenchStamped F → Output F

module _ {F : Type 0} where
  abbrev pub subscribed_topic : Settings F → Subscription → String
  subscribed_topic s tcp_pose_callback = s.tcp_pose_topic
  subscribed_topic s robot_mode_callback = s.robot_mode_topic
  subscribed_topic s safety_mode_callback = s.safety_mode_topic
  subscribed_topic s robot_program_running_callback = s.robot_program_running_topic
  subscribed_topic s speed_scaling_callback = s.speed_scaling_topic
  subscribed_topic s wrench_callback = s.wrench_topic

  -- Whether a message has the type of the subscription.
  abbrev pub takes : Subscription → Input F → Bool
  takes tcp_pose_callback (tcp_pose msg) = true
  takes robot_mode_callback (mode_code code) = true
  takes safety_mode_callback (safety_code code) = true
  takes robot_program_running_callback (program_running running) = true
  takes speed_scaling_callback (scaling factor) = true
  takes wrench_callback (wrench msg) = true
  takes _ _ = false

  abbrev pub period_of : Settings F → Timer → F
  period_of s tcp_pose_timer = s.tcp_pose_period_s
  period_of s robot_status_timer = s.robot_status_period_s
  period_of s wrench_timer = s.wrench_period_s

module _ {F : Type 0} ⦃fl : Floats F⦄ where
  -- What the callback of a timer publishes, with the topic, when the clock reads `now`.
  unfoldable pub fire : Settings F → ℕ → Timer → StateBridge F → String × Output F
  fire s now tcp_pose_timer b = (s.tcp_pose_output_topic, tcp_pose_out (publish_tcp_pose now b))
  fire s now robot_status_timer b =
      (s.robot_status_output_topic, robot_status_out (publish_robot_status now b).1)
  fire s now wrench_timer b = (s.wrench_output_topic, wrench_out (publish_wrench now b))
