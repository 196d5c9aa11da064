-- ===== src/Entry/Endings.antt =====
-- What the mains of the nodes leave behind, in whatever way the spinning ends.
mod Tests
use digital_twin_based_on_un.Common.{
  ◌≡◌, refl, Bool, true, false, not, ◌&&◌, ◌||◌, List, [], ◌∷◌, ◌++◌, Option, none, some, is_some,
  if◌then◌else◌, arith,
}
use digital_twin_based_on_un.Entry.{
  Exception, keyboard_interrupt, external_shutdown, runtime_error, other_exception, Call, init_call,
  construct_call, spin_call, idle_call, destroy_call, shutdown_call, Runtime, Context, Statement,
  is_interrupt, is_interrupt_or_shutdown, is_expected, joint_state_bridge_main,
  joint_torque_bridge_main, robot_info_bridge_main, controller_status_bridge_main,
  io_states_bridge_main, tool_data_bridge_main, command_supervisor_main,
  twist_display_conditioner_main, teleop_enable_bridge_main, robot_program_watchdog_main,
  keyboard_unity_servo_main, ur_state_bridge_main, torque_publisher_main,
}

-- The nodes, by their mains.
pub data Program : Type 0 where
  joint_states joint_torques robot_info controller_status io_states tool_data supervisor : Program
  conditioner enable_bridge watchdog servo state_bridge publisher : Program

abbrev pub main_of : Program → Runtime → Statement
main_of joint_states = joint_state_bridge_main
main_of joint_torques = joint_torque_bridge_main
main_of robot_info = robot_info_bridge_main
main_of controller_status = controller_status_bridge_main
main_of io_states = io_states_bridge_main
main_of tool_data = tool_data_bridge_main
main_of supervisor = command_supervisor_main
main_of conditioner = twist_display_conditioner_main
main_of enable_bridge = teleop_enable_bridge_main
main_of watchdog = robot_program_watchdog_main
main_of servo = keyboard_unity_servo_main
main_of state_bridge = ur_state_bridge_main
main_of publisher = torque_publisher_main

-- Whether a program cleans up whatever ends the spinning.
abbrev pub cleans_up : Program → Bool
cleans_up conditioner = true
cleans_up enable_bridge = true
cleans_up watchdog = true
cleans_up servo = true
cleans_up state_bridge = true
cleans_up publisher = true
cleans_up _ = false

-- The exceptions that end the spinning and not the program.
abbrev pub catches : Program → Exception → Bool
catches watchdog e = is_interrupt e
catches servo e = is_interrupt e
catches state_bridge e = is_expected e
catches publisher e = is_interrupt_or_shutdown e
catches _ e = false

-- Whether a program asks for the context before it shuts it down.
abbrev pub asks_first : Program → Bool
asks_first state_bridge = true
asks_first publisher = true
asks_first _ = false

abbrev pub is_servo : Program → Bool
is_servo servo = true
is_servo _ = false

abbrev pub or_else : Option Exception → Option Exception → Option Exception
or_else none other = other
or_else (some e) other = some e

-- Whether destroy_node runs.
abbrev pub released : Program → Runtime → Bool
released p r = not (is_some r.constructed) && (cleans_up p || not (is_some r.spun))

-- What the spinning leaves, with its handler: the servo publishes its stop there.
abbrev pub spinning : Program → Runtime → Option Exception
spinning p r = elim r.spun [
  | none ↦ none
  | some e ↦
      if catches p e
      then (if is_servo p && not r.ok_after then r.not_published else none)
      else some e
]

abbrev pub ending : Program → Runtime → Option Exception
ending p r =
    if released p r && not (asks_first p) && not r.ok_after
    then or_else r.not_shut_down (spinning p r)
    else spinning p r

abbrev pub is_interrupted : Option Exception → Bool
is_interrupted none = false
is_interrupted (some e) = is_interrupt e

abbrev pub is_destroy : Call → Bool
is_destroy destroy_call = true
is_destroy _ = false

abbrev pub is_stop : Call → Bool
is_stop idle_call = true
is_stop _ = false

abbrev pub has : (Call → Bool) → List Call → Bool
has test [] = false
has test (c ∷ cs) = test c || has test cs

abbrev pub fresh : Context
fresh = record { ok = false; calls = [] }

-- Whatever rclpy answers, for the main of each of the thirteen nodes: the node is destroyed
-- exactly when its constructor returned and the spinning returned or the main has a finally; the
-- servo publishes its stop exactly when an interrupt ended the spinning and the publication, which
-- needs a valid context, did not fail; the context stays up exactly when it was and nothing was
-- destroyed; and the exception that leaves the main is that of the constructor, else that of a
-- shutdown of a context that is down, which the state bridge and the torque publisher alone do not
-- ask for, else that of the spinning, unless the main catches it, or of the failed stop.
pub main_of_lem :
    (p : Program) (r : Runtime)
    → let (c, raised) = main_of p r fresh in
      (has is_destroy c.calls ≡ released p r)
      × (has is_stop c.calls ≡ (
          not (is_some r.constructed)
          && is_servo p
          && is_interrupted r.spun
          && (r.ok_after || not (is_some r.not_published))))
      × (c.ok ≡ (is_some r.constructed || (r.ok_after && not (released p r))))
      × (raised ≡ (if is_some r.constructed then r.constructed else ending p r))
unfolding joint_state_bridge_main joint_torque_bridge_main robot_info_bridge_main
    controller_status_bridge_main io_states_bridge_main tool_data_bridge_main
    command_supervisor_main twist_display_conditioner_main teleop_enable_bridge_main
    robot_program_watchdog_main keyboard_unity_servo_main ur_state_bridge_main torque_publisher_main
main_of_lem p r = ground arith
