-- ===== src/Deploy/Launch.antt =====
-- The three launch files: digital_twin_manager.launch.py and unity_teleop_control.launch.py of
-- digital_twin_on_unity_and_ros2/launch/, and torque_publisher.launch.py of
-- ur_rtde_torque_bridge/launch/. Launch itself is a parameter: the value of each configuration.
use Prim.Native.String.{String}
use digital_twin_based_on_un.Common.{Bool, true, List, [], ◌∷◌, Option, none, some}
use digital_twin_based_on_un.Bridges.Joints.{lookup, get_or}
use digital_twin_based_on_un.Manager.{Manager}
use digital_twin_based_on_un.Manager.Nodes.{Config, new_manager}

-- The value of a parameter of a launched node.
pub data Value : Type 0 where
  flag : Bool → Value
  configuration : String → Value
  -- a parameter file, named by a launch configuration
  file : String → Value

-- launch_ros.actions.Node
pub record LaunchNode : Type 0 where
  pub ros_package : String
  pub executable : String
  pub name : String
  pub parameters : List (String × Value)

-- A launch description: the arguments with their defaults, and the nodes.
pub record LaunchDescription : Type 0 where
  pub arguments : List (String × String)
  pub nodes : List LaunchNode

abbrev pub manager_node : LaunchNode
manager_node = record {
  ros_package = "digital_twin_on_unity_and_ros2";
  executable = "digital_twin_manager";
  name = "digital_twin_manager";
  parameters =
      ("ros_ip", configuration "ros_ip")
      ∷ ("ros_tcp_port", configuration "ros_tcp_port")
      ∷ ("respawn_permanent_nodes", flag true)
      ∷ ("robot_ip", configuration "robot_ip")
      ∷ ("rtde_port", configuration "rtde_port")
      ∷ ("rtde_field", configuration "rtde_field")
      ∷ ("joint_torque_publish_rate_hz", configuration "joint_torque_publish_rate_hz")
      ∷ ("joint_torques_topic", configuration "joint_torques_topic")
      ∷ [];
}

unfoldable pub digital_twin_manager : LaunchDescription
digital_twin_manager = record {
  arguments =
      ("ros_ip", "0.0.0.0")
      ∷ ("ros_tcp_port", "10000")
      ∷ ("robot_ip", "127.0.0.1")
      ∷ ("rtde_port", "30004")
      ∷ ("rtde_field", "actual_current_as_torque")
      ∷ ("joint_torque_publish_rate_hz", "20.0")
      ∷ ("joint_torques_topic", "/joint_torques")
      ∷ [];
  nodes = manager_node ∷ [];
}

-- `default_params` is the path of the installed parameter file.
unfoldable pub unity_teleop_control : String → LaunchDescription
unity_teleop_control default_params = record {
  arguments = ("keyboard_unity_servo_params", default_params) ∷ [];
  nodes =
      record {
        ros_package = "digital_twin_on_unity_and_ros2";
        executable = "keyboard_unity_servo";
        name = "keyboard_unity_servo";
        parameters = ("", file "keyboard_unity_servo_params") ∷ [];
      }
      ∷ record {
        ros_package = "digital_twin_on_unity_and_ros2";
        executable = "teleop_enable_bridge";
        name = "teleop_enable_bridge";
        parameters = [];
      }
      ∷ [];
}

unfoldable pub torque_publisher : LaunchDescription
torque_publisher = record {
  arguments =
      ("robot_ip", "127.0.0.1")
      ∷ ("rtde_port", "30004")
      ∷ ("rtde_field", "actual_current_as_torque")
      ∷ ("publish_rate_hz", "20.0")
      ∷ ("output_topic", "/joint_torques")
      ∷ [];
  nodes =
      record {
        ros_package = "ur_rtde_torque_bridge";
        executable = "torque_publisher";
        name = "ur_rtde_torque_publisher";
        parameters =
            ("robot_ip", configuration "robot_ip")
            ∷ ("rtde_port", configuration "rtde_port")
            ∷ ("rtde_field", configuration "rtde_field")
            ∷ ("publish_rate_hz", configuration "publish_rate_hz")
            ∷ ("output_topic", configuration "output_topic")
            ∷ [];
      }
      ∷ [];
}

-- The strings that a node gets for its parameters: a parameter that is not passed is missing.
-- `configured` is the value that launch gives a launch configuration.
abbrev pub passed : (String → String) → List (String × Value) → String → Option String
passed configured parameters name = elim (lookup name parameters) [
  | none ↦ none
  | some value ↦ elim value [
    | flag b ↦ none
    | file f ↦ none
    | configuration arg ↦ some (configured arg)
  ]
]

-- The Boolean that a node gets for a parameter.
abbrev pub passed_flag : List (String × Value) → String → Option Bool
passed_flag parameters name = elim (lookup name parameters) [
  | none ↦ none
  | some value ↦ elim value [ flag b ↦ some b | file f ↦ none | configuration arg ↦ none ]
]

-- The parameters of the manager as `__init__` reads them: the declared defaults, unless the launch
-- file passes a value.
unfoldable pub manager_config : (String → Option String) → (String → Option Bool) → Config
manager_config text is_set = record {
  ros_ip = get_or (text "ros_ip") "0.0.0.0";
  ros_tcp_port = get_or (text "ros_tcp_port") "10000";
  respawn_permanent_nodes = get_or (is_set "respawn_permanent_nodes") true;
  robot_ip = get_or (text "robot_ip") "127.0.0.1";
  rtde_port = get_or (text "rtde_port") "30004";
  rtde_field = get_or (text "rtde_field") "actual_current_as_torque";
  joint_torque_publish_rate_hz = get_or (text "joint_torque_publish_rate_hz") "20.0";
  joint_torques_topic = get_or (text "joint_torques_topic") "/joint_torques";
}

-- The manager that the launch file starts, before it starts its children.
unfoldable pub launch_manager : (String → String) → Manager
launch_manager configured = new_manager (
    manager_config (passed configured manager_node.parameters)
      (passed_flag manager_node.parameters))
