-- ===== src/Manager/Nodes.antt =====
-- The permanent nodes that the manager starts, in their order.
use Prim.Native.String.{String}
use Prim.Native.String.{◌++◌ as str_append}
use digital_twin_based_on_un.Common.{false, List, [], ◌∷◌, none, Bool}
use digital_twin_based_on_un.Manager.{ManagedProcess, Manager}

-- The parameters of the node, the numbers as an f-string prints them.
pub record Config : Type 0 where
  pub ros_ip : String
  pub ros_tcp_port : String
  pub respawn_permanent_nodes : Bool
  pub robot_ip : String
  pub rtde_port : String
  pub rtde_field : String
  pub joint_torque_publish_rate_hz : String
  pub joint_torques_topic : String

-- An entry of the dict, under the name of the node: `ros2 run ros_package executable`, and arguments.
abbrev pub entry : String → String → String → List String → String × ManagedProcess
entry name ros_package executable arguments = (
  name,
  record {
    name = name;
    command = "ros2" ∷ "run" ∷ ros_package ∷ executable ∷ arguments;
    process = none;
  },
)

unfoldable pub build_permanent_nodes : Config → List (String × ManagedProcess)
build_permanent_nodes cfg =
    entry "joint_state_bridge_ros2unity" "digital_twin_on_unity_and_ros2"
      "joint_state_bridge_ros2unity" []
    ∷ entry "ur_rtde_torque_publisher" "ur_rtde_torque_bridge" "torque_publisher" (
        "--ros-args"
        ∷ "-p"
        ∷ str_append "robot_ip:=" cfg.robot_ip
        ∷ "-p"
        ∷ str_append "rtde_port:=" cfg.rtde_port
        ∷ "-p"
        ∷ str_append "rtde_field:=" cfg.rtde_field
        ∷ "-p"
        ∷ str_append "publish_rate_hz:=" cfg.joint_torque_publish_rate_hz
        ∷ "-p"
        ∷ str_append "output_topic:=" cfg.joint_torques_topic
        ∷ [])
    ∷ entry "joint_torque_bridge_ros2unity" "digital_twin_on_unity_and_ros2"
        "joint_torque_bridge_ros2unity" []
    ∷ entry "ur_state_bridge_ros2unity" "digital_twin_on_unity_and_ros2" "ur_state_bridge_ros2unity"
        []
    ∷ entry "io_states_bridge_ros2unity" "digital_twin_on_unity_and_ros2"
        "io_states_bridge_ros2unity" []
    ∷ entry "tool_data_bridge_ros2unity" "digital_twin_on_unity_and_ros2"
        "tool_data_bridge_ros2unity" []
    ∷ entry "controller_status_bridge_ros2unity" "digital_twin_on_unity_and_ros2"
        "controller_status_bridge_ros2unity" []
    ∷ entry "robot_info_bridge_ros2unity" "digital_twin_on_unity_and_ros2"
        "robot_info_bridge_ros2unity" []
    ∷ entry "command_supervisor_ros2unity" "digital_twin_on_unity_and_ros2"
        "command_supervisor_ros2unity" []
    ∷ entry "twist_display_conditioner_ros2unity" "digital_twin_on_unity_and_ros2"
        "twist_display_conditioner_ros2unity" []
    ∷ entry "robot_program_watchdog" "digital_twin_on_unity_and_ros2" "robot_program_watchdog" []
    ∷ entry "ros_tcp_endpoint" "ros_tcp_endpoint" "default_server_endpoint" (
        "--ros-args"
        ∷ "-p"
        ∷ str_append "ROS_IP:=" cfg.ros_ip
        ∷ "-p"
        ∷ str_append "ROS_TCP_PORT:=" cfg.ros_tcp_port
        ∷ [])
    ∷ []

-- `__init__` before it starts the nodes.
unfoldable pub new_manager : Config → Manager
new_manager cfg = record {
  respawn_permanent_nodes = cfg.respawn_permanent_nodes;
  permanent_nodes = build_permanent_nodes cfg;
  controlled_nodes = [];
  shutting_down = false;
}
