-- ===== src/Deploy.antt =====
-- How the nodes are installed and launched: setup.py and launch/ of the packages
-- digital_twin_on_unity_and_ros2 and ur_rtde_torque_bridge under the repository's src/.
-- Resolving a substitution and installing a script are done by launch and setuptools; here are
-- the tables that the files hand to them, and what a launch configuration comes to.
pub mod Launch
pub mod Started
mod Tests
use Prim.Native.String.{String}
use digital_twin_based_on_un.Common.{List, [], ◌∷◌}

-- `console_scripts` of each package: the name of a script, and the function that it runs.
abbrev pub twin_scripts : List (String × String)
twin_scripts =
    (
      "joint_state_bridge_ros2unity",
      "digital_twin_on_unity_and_ros2.state_bridges.joint_state_bridge_ros2unity:main",
    )
    ∷ (
      "joint_torque_bridge_ros2unity",
      "digital_twin_on_unity_and_ros2.state_bridges.joint_torque_bridge_ros2unity:main",
    )
    ∷ (
      "ur_state_bridge_ros2unity",
      "digital_twin_on_unity_and_ros2.state_bridges.ur_state_bridge_ros2unity:main",
    )
    ∷ (
      "io_states_bridge_ros2unity",
      "digital_twin_on_unity_and_ros2.state_bridges.io_states_bridge_ros2unity:main",
    )
    ∷ (
      "tool_data_bridge_ros2unity",
      "digital_twin_on_unity_and_ros2.state_bridges.tool_data_bridge_ros2unity:main",
    )
    ∷ (
      "controller_status_bridge_ros2unity",
      "digital_twin_on_unity_and_ros2.state_bridges.controller_status_bridge_ros2unity:main",
    )
    ∷ (
      "robot_info_bridge_ros2unity",
      "digital_twin_on_unity_and_ros2.state_bridges.robot_info_bridge_ros2unity:main",
    )
    ∷ (
      "command_supervisor_ros2unity",
      "digital_twin_on_unity_and_ros2.command_bridges.command_supervisor_ros2unity:main",
    )
    ∷ (
      "twist_display_conditioner_ros2unity",
      "digital_twin_on_unity_and_ros2.command_bridges.twist_display_conditioner_ros2unity:main",
    )
    ∷ (
      "keyboard_unity_servo",
      "digital_twin_on_unity_and_ros2.command_bridges.keyboard_unity_servo_ros2unity:main",
    )
    ∷ (
      "teleop_enable_bridge",
      "digital_twin_on_unity_and_ros2.command_bridges.teleop_enable_bridge_ros2unity:main",
    )
    ∷ (
      "robot_program_watchdog",
      "digital_twin_on_unity_and_ros2.command_bridges.robot_program_watchdog_ros2unity:main",
    )
    ∷ ("digital_twin_manager", "manager.digital_twin_manager_node:main")
    ∷ []

abbrev pub torque_scripts : List (String × String)
torque_scripts = ("torque_publisher", "ur_rtde_torque_bridge.torque_publisher_node:main") ∷ []

-- The scripts of a package.
abbrev pub installed : List (String × List (String × String))
installed =
    ("digital_twin_on_unity_and_ros2", twin_scripts)
    ∷ ("ur_rtde_torque_bridge", torque_scripts)
    ∷ []
