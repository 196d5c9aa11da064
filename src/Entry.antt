-- ===== src/Entry.antt =====
-- How a node starts and ends: the function main of each file of command_bridges/ and state_bridges/
-- of digital_twin_on_unity_and_ros2/digital_twin_on_unity_and_ros2/, and of ur_rtde_torque_bridge/
-- ur_rtde_torque_bridge/torque_publisher_node.py, under the repository's src/. What rclpy answers is
-- a parameter; destroy_node is taken to return. The main of the manager stands in Manager.Main.
pub mod Endings
use digital_twin_based_on_un.Common.{
  Bool, true, false, List, [], ◌∷◌, ◌++◌, Option, none, some, if◌then◌else◌,
}

-- The exceptions that the code tells apart; RCLError is a RuntimeError.
pub data Exception : Type 0 where
  keyboard_interrupt external_shutdown runtime_error other_exception : Exception

-- A call that returned.
pub data Call : Type 0 where
  init_call construct_call spin_call idle_call destroy_call shutdown_call : Call

-- What rclpy answers: the exception of the constructor, how the spinning ends and whether the
-- context is valid after it, and what a publication and a shutdown raise without a valid context.
pub record Runtime : Type 0 where
  pub constructed : Option Exception
  pub spun : Option Exception
  pub ok_after : Bool
  pub not_published : Option Exception
  pub not_shut_down : Option Exception

-- Whether the context is valid, and the calls.
pub record Context : Type 0 where
  pub ok : Bool
  pub calls : List Call

-- A statement: the context after it, and the exception that it raises.
abbrev pub Statement : Type 0
Statement = Context → Context × Option Exception

abbrev pub done : Statement
done c = (c, none)

infixl 5 ◌>>◌
abbrev pub ◌>>◌ : Statement → Statement → Statement
◌>>◌ first second c =
    let (d, raised) = first c in elim raised [ none ↦ second d | some e ↦ (d, some e) ]

-- `try: body except handles: handler`
abbrev pub try_except : Statement → (Exception → Bool) → Statement → Statement
try_except body handles handler c =
    let (d, raised) = body c in
    elim raised [ none ↦ (d, none) | some e ↦ if handles e then handler d else (d, some e) ]

-- `try: body finally: last`; an exception of `last` takes the place of that of the body.
abbrev pub try_finally : Statement → Statement → Statement
try_finally body last c =
    let (d, raised) = body c in
    let (e, raised_last) = last d in (e, elim raised_last [ none ↦ raised | some x ↦ some x ])

abbrev pub returned : Call → Option Exception → Context → Context × Option Exception
returned call none c = (record c { calls = c.calls ++ call ∷ [] }, none)
returned call (some e) c = (c, some e)

abbrev pub initialise : Statement
initialise c = returned init_call none (record c { ok = true })

abbrev pub construct_node : Runtime → Statement
construct_node r c = returned construct_call r.constructed c

abbrev pub spin_node : Runtime → Statement
spin_node r c = returned spin_call r.spun (record c { ok = r.ok_after })

abbrev pub destroy : Statement
destroy c = returned destroy_call none c

abbrev pub shutdown_context : Runtime → Statement
shutdown_context r c =
    if c.ok
    then returned shutdown_call none (record c { ok = false })
    else returned shutdown_call r.not_shut_down c

-- `if rclpy.ok(): rclpy.shutdown()`
abbrev pub shutdown_if_ok : Runtime → Statement
shutdown_if_ok r c = if c.ok then shutdown_context r c else done c

-- `node.publish_command(mode=TeleopCommand.IDLE)`
abbrev pub publish_stop : Runtime → Statement
publish_stop r c = if c.ok then returned idle_call none c else returned idle_call r.not_published c

abbrev pub is_interrupt : Exception → Bool
is_interrupt keyboard_interrupt = true
is_interrupt external_shutdown = false
is_interrupt runtime_error = false
is_interrupt other_exception = false

abbrev pub is_interrupt_or_shutdown : Exception → Bool
is_interrupt_or_shutdown external_shutdown = true
is_interrupt_or_shutdown e = is_interrupt e

abbrev pub is_expected : Exception → Bool
is_expected runtime_error = true
is_expected e = is_interrupt_or_shutdown e

unfoldable pub joint_state_bridge_main : Runtime → Statement
joint_state_bridge_main r =
    initialise >> construct_node r >> spin_node r >> destroy >> shutdown_context r

unfoldable pub joint_torque_bridge_main : Runtime → Statement
joint_torque_bridge_main r =
    initialise >> construct_node r >> spin_node r >> destroy >> shutdown_context r

unfoldable pub robot_info_bridge_main : Runtime → Statement
robot_info_bridge_main r =
    initialise >> construct_node r >> spin_node r >> destroy >> shutdown_context r

unfoldable pub controller_status_bridge_main : Runtime → Statement
controller_status_bridge_main r =
    initialise >> construct_node r >> spin_node r >> destroy >> shutdown_context r

unfoldable pub io_states_bridge_main : Runtime → Statement
io_states_bridge_main r =
    initialise >> construct_node r >> spin_node r >> destroy >> shutdown_context r

unfoldable pub tool_data_bridge_main : Runtime → Statement
tool_data_bridge_main r =
    initialise >> construct_node r >> spin_node r >> destroy >> shutdown_context r

unfoldable pub command_supervisor_main : Runtime → Statement
command_supervisor_main r =
    initialise >> construct_node r >> spin_node r >> destroy >> shutdown_context r

unfoldable pub twist_display_conditioner_main : Runtime → Statement
twist_display_conditioner_main r =
    initialise >> construct_node r >> try_finally (spin_node r) (destroy >> shutdown_context r)

unfoldable pub teleop_enable_bridge_main : Runtime → Statement
teleop_enable_bridge_main r =
    initialise >> construct_node r >> try_finally (spin_node r) (destroy >> shutdown_context r)

unfoldable pub robot_program_watchdog_main : Runtime → Statement
robot_program_watchdog_main r =
    initialise
    >> construct_node r
    >> try_finally (try_except (spin_node r) is_interrupt done) (destroy >> shutdown_context r)

unfoldable pub keyboard_unity_servo_main : Runtime → Statement
keyboard_unity_servo_main r =
    initialise
    >> construct_node r
    >> try_finally (try_except (spin_node r) is_interrupt (publish_stop r))
        (destroy >> shutdown_context r)

unfoldable pub ur_state_bridge_main : Runtime → Statement
ur_state_bridge_main r =
    initialise
    >> construct_node r
    >> try_finally (try_except (spin_node r) is_expected done) (destroy >> shutdown_if_ok r)

unfoldable pub torque_publisher_main : Runtime → Statement
torque_publisher_main r =
    initialise
    >> construct_node r
    >> try_finally (try_except (spin_node r) is_interrupt_or_shutdown done)
        (destroy >> shutdown_if_ok r)
