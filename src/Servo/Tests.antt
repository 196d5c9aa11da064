-- ===== src/Servo/Tests.antt =====
-- The servo node in a concrete environment, and an instance of each theorem.
use Prim.Native.String.{String}
use digital_twin_based_on_un.Common.{
  ℕ, ◌+◌, ◌*◌, ◌≤◌, ◌==◌, ◌≡◌, refl, arith, true, false, List, [], ◌∷◌, none, some, map,
  if◌then◌else◌,
}
use digital_twin_based_on_un.Common.Int.{ℤ, pos}
use digital_twin_based_on_un.Common.Samples.{whole_floats}
use digital_twin_based_on_un.Msgs.{PoseStamped, JointState, TeleopCommand, mode_cartesian_pose}
use digital_twin_based_on_un.Jog.{action_home, action_record_home}
use digital_twin_based_on_un.Servo.{
  Config, keys, joint_state, Moment, Event, command, seed, listed, switched, stopped, started,
  reset, goal, pass, emit, Env, World,
}
use digital_twin_based_on_un.Bridges.Joints.{fill}
use digital_twin_based_on_un.Servo.Commands.{
  deliver, handle, on_keys, on_joint_state, spin, publish_command, on_observation, publish_tick,
}
use digital_twin_based_on_un.Servo.Controllers.{
  toggle_motion_controller, switch_to_servo_controller, request_servo, finish_servo,
  get_controller_mode, mode_of, stop_moveit_servo, start_moveit_servo, reset_moveit_servo_status,
  call_trigger_service, current_joint_positions_for_servo, await_joint_state, seed_positions,
  seed_if, publish_servo_seed, seed_rounds, switch_controllers,
}
use digital_twin_based_on_un.Servo.Home.{new_node}
use digital_twin_based_on_un.Servo.Loop.{
  run_next, loop_round, dispatch_action, process_pending_actions, spin_unity_keyboard,
}
use digital_twin_based_on_un.Servo.Script.{Replies}
use digital_twin_based_on_un.Servo.Gates.{IsGated, spin_unity_keyboard-IsGated}
use digital_twin_based_on_un.Servo.Numbering.{IsNumbered, spin_unity_keyboard-IsNumbered}
use digital_twin_based_on_un.Servo.Rate.{spin_unity_keyboard-rate}
use digital_twin_based_on_un.Servo.Records.{dispatch_action-record_home}

abbrev two_joints : Config ℤ
two_joints = record {
  robot_name = "ur7e";
  frame_id = "base_link";
  linear_step = pos 5;
  angular_step = pos 2;
  enable = true;
  current_pose_timeout_s = pos 1000;
  home_joint_names = "elbow_joint" ∷ "wrist_1_joint" ∷ [];
  home_joint_positions = pos 1 ∷ pos 2 ∷ [];
  home_duration_s = pos 3;
  trajectory_controller = "trajectory";
  servo_controller = "servo";
  switch_controller_timeout_s = pos 2;
  auto_switch_for_home = true;
  return_to_servo_after_home = false;
  seed_servo_on_switch = true;
  servo_seed_publish_count = pos 2;
  manage_servo_node_on_switch = true;
  period = 20;
}

abbrev no_joint_home : Config ℤ
no_joint_home = record two_joints { home_joint_names = []; home_joint_positions = [] }

-- Every service answers well, and the trajectory controller is active.
abbrev calm : ℕ → Moment ℤ
calm k = record {
  now = 100 + k;
  ready = true;
  delivered = [];
  controllers = some (("trajectory", "active") ∷ []);
  switch_ok = some true;
  success = some true;
  reset_done = true;
  accepted = true;
}

abbrev joints : JointState ℤ
joints = record {
  stamp = 0;
  name = "wrist_1_joint" ∷ "elbow_joint" ∷ [];
  position = pos 8 ∷ pos 7 ∷ [];
  velocity = [];
  effort = [];
}

-- The first spin brings the joints and the toggle key.
abbrev toggling : Env ℤ
toggling k =
    if k == 0 then record (calm k) { delivered = joint_state joints ∷ keys [] "c" ∷ [] } else calm k

abbrev fresh_world : Config ℤ → List String → World ℤ
fresh_world cfg queue = record {
  node = record (new_node cfg none none none) { pending_actions = queue };
  moment = 0;
  trace = [];
}

abbrev seen : PoseStamped ℤ
seen = record {
  stamp = 90;
  frame_id = "tool0";
  position = (pos 1, pos 2, pos 3);
  orientation = (pos 0, pos 0, pos 0, pos 1);
}

abbrev kind : Event ℤ → String
kind (command msg) = "command"
kind (seed positions) = "seed"
kind (listed controllers) = "listed"
kind (switched activate deactivate timeout ok) = "switched"
kind (stopped success) = "stopped"
kind (started success) = "started"
kind (reset done) = "reset"
kind (goal names positions span accepted) = "goal"

-- The toggle key runs the whole switch to the servo controller before the first tick.
toggling_run :
    map kind
      (spin_unity_keyboard 1 3 toggling two_joints
        (record { node = new_node two_joints none none none; moment = 0; trace = [] }, 0)).0.trace
    ≡ "command" ∷ "started" ∷ "reset" ∷ "seed" ∷ "seed" ∷ "switched" ∷ "seed" ∷ "stopped" ∷ "listed"
      ∷ "listed" ∷ []
unfolding spin_unity_keyboard loop_round process_pending_actions run_next dispatch_action
    toggle_motion_controller switch_to_servo_controller request_servo finish_servo
    get_controller_mode mode_of stop_moveit_servo start_moveit_servo reset_moveit_servo_status
    call_trigger_service current_joint_positions_for_servo await_joint_state seed_positions seed_if
    publish_servo_seed seed_rounds switch_controllers publish_tick publish_command deliver handle
    on_keys on_joint_state spin pass emit new_node fill
toggling_run = refl

spin_unity_keyboard-IsNumbered_example :
    let w =
      (spin_unity_keyboard 2 3 toggling two_joints
        (record { node = new_node two_joints none none none; moment = 0; trace = [] }, 0)).0 in
    IsNumbered two_joints w.node.sequence_id w.trace
spin_unity_keyboard-IsNumbered_example =
    spin_unity_keyboard-IsNumbered two_joints toggling none none none 2 3 0

spin_unity_keyboard-IsGated_example :
    IsGated two_joints
      (spin_unity_keyboard 2 3 toggling two_joints
        (record { node = new_node two_joints none none none; moment = 0; trace = [] }, 0)).0.trace
spin_unity_keyboard-IsGated_example =
    spin_unity_keyboard-IsGated toggling two_joints none none none 2 3 0

dispatch_action-record_home_example :
    let w = fresh_world no_joint_home [] in
    (msg : TeleopCommand ℤ) × ((dispatch_action calm no_joint_home action_home (
        dispatch_action calm no_joint_home action_record_home
          (record w { node = on_observation 95 seen w.node }))).trace
      ≡ command msg ∷ [])
    × (msg.control_mode ≡ mode_cartesian_pose)
    × (msg.target_pose ≡ record seen { stamp = 101 })
    × (msg.command_frame ≡ "tool0")
dispatch_action-record_home_example =
    dispatch_action-record_home calm no_joint_home (fresh_world no_joint_home []) 95 seen refl refl
      refl

-- Every clock reading is the same, so one tick is all.
-- A clock that moves on by ten at each reading.
abbrev ticking : ℕ → Moment ℤ
ticking k = record (calm 0) { now = 100 + 10 * k }

spin_unity_keyboard-rate_example :
    let r = spin_unity_keyboard 4 2 ticking two_joints (fresh_world two_joints [], 100) in
    let last = (ticking r.0.moment).now in
    (r.0.node.sequence_id * 20 + 100 ≤ 0 * 20 + last + 20)
    × (last + 0 * (20 + 3 * 10) ≤ 100 + 2 * 10 + r.0.node.sequence_id * (20 + 3 * 10))
unfolding new_node
spin_unity_keyboard-rate_example =
    spin_unity_keyboard-rate ticking two_joints (λ k. tt) 10 (λ k. omega arith) (λ k. omega arith) 4
      2 (fresh_world two_joints [], 100) refl (omega arith) (omega arith)

abbrev calm_replies : Replies
calm_replies = record {
  controllers = some (("trajectory", "active") ∷ []);
  switch_ok = some true;
  success = some true;
  reset_done = true;
  accepted = true;
}
