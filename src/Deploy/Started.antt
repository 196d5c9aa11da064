-- ===== src/Deploy/Started.antt =====
-- What a launch starts.
use Prim.Native.String.{String}
use Prim.Native.String.{◌++◌ as str_append}
use digital_twin_based_on_un.Common.{◌≡◌, refl, true, List, [], ◌∷◌, ◌++◌, none, some, is_some}
use digital_twin_based_on_un.Common.Floats.{Floats}
use digital_twin_based_on_un.Bridges.Joints.{lookup, get_or}
use digital_twin_based_on_un.Manager.{ManagedProcess}
use digital_twin_based_on_un.Manager.Nodes.{build_permanent_nodes, new_manager}
use digital_twin_based_on_un.Params.Publisher
use digital_twin_based_on_un.Deploy.{installed}
use digital_twin_based_on_un.Deploy.Launch.{
  LaunchNode, digital_twin_manager, manager_config, launch_manager,
}

-- A package, and an executable of it.
abbrev pub Target : Type 0
Target = String × String

-- What a command of the manager runs.
abbrev pub run_target : List String → List Target
run_target (ros2 ∷ verb ∷ ros_package ∷ executable ∷ arguments) = (ros_package, executable) ∷ []
run_target _ = []

abbrev pub managed : List (String × ManagedProcess) → List Target
managed [] = []
managed ((key, p) ∷ ps) = run_target p.command ++ managed ps

abbrev pub launched : List LaunchNode → List Target
launched [] = []
launched (n ∷ ns) = (n.ros_package, n.executable) ∷ launched ns

-- An executable of one of the two packages is a console script of it; the other packages are not
-- of this repository.
abbrev pub IsInstalled : Target → Type 0
IsInstalled (ros_package, executable) = elim (lookup ros_package installed) [
  | none ↦ true ≡ true
  | some scripts ↦ is_some (lookup executable scripts) ≡ true
]

-- The arguments of a command that set parameters.
abbrev pub ros_args : List (String × String) → List String
ros_args ps = "--ros-args" ∷ settings ps
  where
    settings : List (String × String) → List String
    settings [] = []
    settings ((name, value) ∷ rest) = "-p" ∷ str_append (str_append name ":=") value ∷ settings rest

-- The command of a child with these parameters.
abbrev pub command_of : String → String → List (String × String) → List String
command_of ros_package executable ps = "ros2" ∷ "run" ∷ ros_package ∷ executable ∷ ros_args ps

abbrev pub command_in : String → List (String × ManagedProcess) → List String
command_in key ps = elim (lookup key ps) [ none ↦ [] | some p ↦ p.command ]

abbrev pub publisher_parameters : (String → String) → List (String × String)
publisher_parameters configured =
    ("robot_ip", configured "robot_ip")
    ∷ ("rtde_port", configured "rtde_port")
    ∷ ("rtde_field", configured "rtde_field")
    ∷ ("publish_rate_hz", configured "joint_torque_publish_rate_hz")
    ∷ ("output_topic", configured "joint_torques_topic")
    ∷ []

abbrev pub names : {A : Type 0} → List (String × A) → List String
names [] = []
names ((name, a) ∷ ps) = name ∷ names ps

-- The default of a launch argument.
abbrev pub default_of : List (String × String) → String → String
default_of arguments name = get_or (lookup name arguments) ""

-- Whatever values launch gives the configurations, the manager that the launch file starts runs
-- the torque publisher with the configured address of the robot, port, field, rate and topic, for
-- exactly the parameters that the publisher declares, the endpoint with the address and port to
-- listen on, and the torque bridge without parameters, and it restarts children that exit; and
-- with the defaults of the launch arguments it is the manager that its own defaults give.
launch_manager_lem :
    (F : Type 0) ⦃fl : Floats F⦄ (configured : String → String)
    → (command_in "ur_rtde_torque_publisher" (launch_manager configured).permanent_nodes
        ≡ command_of "ur_rtde_torque_bridge" "torque_publisher" (publisher_parameters configured))
      × (names (publisher_parameters configured) ≡ names (Publisher.declarations {F = F}))
      × (command_in "ros_tcp_endpoint" (launch_manager configured).permanent_nodes
          ≡ command_of "ros_tcp_endpoint" "default_server_endpoint"
              (("ROS_IP", configured "ros_ip") ∷ ("ROS_TCP_PORT", configured "ros_tcp_port") ∷ []))
      × (command_in "joint_torque_bridge_ros2unity" (launch_manager configured).permanent_nodes
          ≡ "ros2" ∷ "run" ∷ "digital_twin_on_unity_and_ros2" ∷ "joint_torque_bridge_ros2unity"
            ∷ [])
      × ((launch_manager configured).respawn_permanent_nodes ≡ true)
      × (launch_manager (default_of digital_twin_manager.arguments)
          ≡ new_manager (manager_config (λ name. none) (λ name. none)))
unfolding launch_manager new_manager manager_config build_permanent_nodes digital_twin_manager
launch_manager_lem F configured = (refl, refl, refl, refl, refl, refl)
