-- ===== src/Lib.antt =====
-- The digital twin of a UR robot: the ROS 2 nodes between the robot, the operator in Unity and the
-- motion controllers. This library models the Python code of these nodes by definitions that run.
--
-- The parts, and how they interact. Paths are relative to src/digital_twin_on_unity_and_ros2/
-- digital_twin_on_unity_and_ros2/, unless they begin otherwise.
--
-- Commands to the robot. Unity sends the keys held and action keys; the keyboard servo publishes a
-- TeleopCommand in each period, and runs the actions: stop, home, switch of the controllers, record
-- a pose. The display conditioner listens to the same commands, to the manager's status and to the
-- twists, and publishes twists that Unity can show without flicker. The watchdog starts the robot's
-- program again when it drops, while somebody publishes commands.
-- - Jog: command_bridges/keyboard_jog.py (filter_held_keys, held_keys_to_twist).
-- - Servo: command_bridges/keyboard_unity_servo_ros2unity.py. Servo has the state and the world;
--   Servo.Commands the callbacks and publish_command; Servo.Controllers the services and the switch;
--   Servo.Home the poses and the home trajectory; Servo.Loop the actions and the main loop. The
--   other files are proofs: Servo.Closed, Switching, Actions and Dispatch carry a property of the
--   single steps over to the whole node; Servo.Script is the script of two actions in an environment
--   that answers every call, which Servo.Toggling and Servo.Homing compare with the node.
-- - Display: command_bridges/display_twist_state.py (DisplayTwistState).
-- - Conditioner: command_bridges/twist_display_conditioner_ros2unity.py, each handler;
--   Conditioner.Reference has a plain description of the whole node.
-- - Watchdog: command_bridges/robot_program_watchdog_ros2unity.py, each handler; a log line is an
--   effect like a call of the service.
-- - Observer: command_bridges/command_supervisor_ros2unity.py: its topics, subscriptions and
--   publishers; command_callback and status_callback are in Bridges.Mirrors.
--
-- State of the robot, to Unity. The RTDE source reads joint torques from the robot's socket, the
-- publisher node publishes them, and a bridge passes them to Unity; other bridges mirror the topics
-- of the robot's driver.
-- - Rtde: src/ur_rtde_torque_bridge/ur_rtde_torque_bridge/rtde_torque_source.py and
--   torque_source.py. Rtde has the packets and the loop of get_torques, Rtde.Socket the state and
--   get_torques, Rtde.Handshake recv_packet and connect; Rtde.Publisher is
--   torque_publisher_node.py, and Rtde.Sessions runs its two timers in any order; Rtde.Contract is
--   the class TorqueSource.
-- - Bridges.Joints: state_bridges/joint_state_bridge_ros2unity.py, joint_torque_bridge_ros2unity.py.
-- - Bridges.Status, Bridges.Subscriptions: state_bridges/ur_state_bridge_ros2unity.py. What the
--   middleware delivers of the messages from before a subscription is a parameter (Topics).
-- - Bridges.Polls: state_bridges/robot_info_bridge_ros2unity.py,
--   controller_status_bridge_ros2unity.py and command_bridges/teleop_enable_bridge_ros2unity.py.
-- - Bridges.Mirrors: state_bridges/io_states_bridge_ros2unity.py, tool_data_bridge_ros2unity.py.
-- - Bridges.Relays: the topics of these two and of the two joint bridges.
-- - Manager: src/digital_twin_on_unity_and_ros2/manager/digital_twin_manager_node.py, which starts,
--   watches and stops the processes of these nodes. Manager.Children has the children as the
--   operating system keeps them, Manager.Lock the lock of several managers on one machine, and
--   Manager.Main the function main, for each answer of the lock.
-- - Entry: the function main of the thirteen nodes, from rclpy.init to rclpy.shutdown, with what rclpy
--   answers as a parameter; a finally block and an except clause are combinators.
-- - Params: the parameters that the constructors of the nodes declare, and what they make of them, a
--   file for each node; Params.Mirror has the four bridges with an input and an output topic.
-- - Deploy: setup.py and launch/ of src/digital_twin_on_unity_and_ros2/ and of
--   src/ur_rtde_torque_bridge/: the console scripts, the launch files, and the manager that a
--   launch starts.
-- - Pipeline puts parts in a row: the torques from the socket to Unity, and the commands of the servo
--   at the conditioner (Pipeline.Teleop) and at the observer (Pipeline.Mirrored). Msgs has the
--   messages that they exchange, Topics the quality of service of a subscription, Common the shared
--   helpers.
--
-- How code becomes a definition. A node is a record of the fields that change, a handler is a
-- function from the node, the message and the clock readings that it makes to the node and what it
-- published or called. Signed integers are Common.Int, clock readings are nanoseconds in ℕ. Floats
-- enter as a type with its operations, the record Floats of Common.Floats: no law of arithmetic is
-- assumed, so that doubles with all their rounding are one instance; Common.Samples gives whole
-- numbers in their place for the examples. A text is a String, or its code points where the code
-- looks at single keys. The servo node, which waits for services inside its actions, runs in an
-- environment that says what each wait, spin and clock reading brings; the RTDE source takes the
-- bytes that each recv returns; the manager takes what the system answers about a process. The
-- declaration of a parameter is a function that a constructor takes, and so is the value that launch
-- gives a configuration.
--
-- Fuel. The loop over the packets of a buffer has the length of the buffer as fuel, which is enough
-- as each turn takes at least three bytes off. recv_packet has fuel above the number of reads that
-- the socket gives. The loop over the queued actions takes its fuel as an argument, one for each
-- action run; the main loop takes the number of its rounds.
--
-- Not modelled: the creation of publishers, subscriptions, clients and timers, which are calls of
-- ROS, except in the observer, in the bridges of Bridges.Relays and Bridges.Subscriptions, and for
-- the watchdog's subscription; log lines, except the watchdog's; the environment of the manager's
-- children and an OSError of its signals; the fixed fields strictness and activate_asap of a switch
-- request; exceptions in futures, except where a node catches them; the metadata and data files of
-- setup.py; the YAML parameter file; the copied message packages; Unity's own code.
pub mod Common
pub mod Msgs
pub mod Topics
pub mod Jog
pub mod Display
pub mod Entry
pub mod Conditioner
pub mod Watchdog
pub mod Observer
pub mod Rtde
pub mod Bridges
pub mod Servo
pub mod Manager
pub mod Params
pub mod Deploy
pub mod Pipeline
