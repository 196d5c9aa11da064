-- ===== src/Servo/Commands.antt =====
-- The callbacks of the servo node, and the commands that it publishes.
use Prim.Native.String.{String}
use text.Mathlib.Text.{◌==◌ as str_eq}
use digital_twin_based_on_un.Common.{
  ℕ, suc, false, List, [], ◌∷◌, ◌++◌, ◌==◌, Option, none, some, if◌then◌else◌,
}
use digital_twin_based_on_un.Common.Int.{pos}
use digital_twin_based_on_un.Common.Floats.{Floats, fl_zero}
use digital_twin_based_on_un.Msgs.{
  Vector3, TwistStamped, PoseStamped, JointState, TeleopCommand, mode_cartesian_pose,
  mode_cartesian_twist,
}
use digital_twin_based_on_un.Jog.{filter_held_keys, held_keys_to_twist}
use digital_twin_based_on_un.Servo.{
  Config, Node, Callback, keys, observation, joint_state, command, Env, World, pass, emit,
}

module _ {F : Type 0} where
  unfoldable pub on_keys : List ℕ → String → Node F → Node F
  on_keys held_keys action_key n =
      if str_eq action_key ""
      then record n { held_keys = filter_held_keys (some held_keys) }
      else record n {
        held_keys = filter_held_keys (some held_keys);
        pending_actions = n.pending_actions ++ action_key ∷ [];
      }

  unfoldable pub on_observation : ℕ → PoseStamped F → Node F → Node F
  on_observation now msg n =
      if str_eq msg.frame_id ""
      then n
      else record n { current_pose = some msg; current_pose_time = some now }

  unfoldable pub on_joint_state : JointState F → Node F → Node F
  on_joint_state msg n = record n { last_joint_state = some msg }

  unfoldable pub handle : Callback F → Node F → Node F
  handle (keys held_keys action_key) n = on_keys held_keys action_key n
  handle (observation now msg) n = on_observation now msg n
  handle (joint_state msg) n = on_joint_state msg n

  unfoldable pub deliver : List (Callback F) → Node F → Node F
  deliver [] n = n
  deliver (c ∷ cs) n = deliver cs (handle c n)

  -- The executor runs what is due, for at most the time that the call allows.
  unfoldable pub spin : Env F → World F → World F
  spin env w = pass (record w { node = deliver (env w.moment).delivered w.node })

module _ {F : Type 0} ⦃fl : Floats F⦄ where
  abbrev pub zero_axes : Vector3 F
  zero_axes = (fl_zero, fl_zero, fl_zero)

  -- The fields of a fresh message.
  abbrev pub empty_twist : TwistStamped F
  empty_twist = record { stamp = 0; frame_id = ""; linear = zero_axes; angular = zero_axes }

  abbrev pub empty_pose : PoseStamped F
  empty_pose = record {
    stamp = 0;
    frame_id = "";
    position = zero_axes;
    orientation = (fl_zero, fl_zero, fl_zero, fl.of_int (pos 1));
  }

  abbrev pub empty_joints : JointState F
  empty_joints = record { stamp = 0; name = []; position = []; velocity = []; effort = [] }

  -- The frame of a pose command: the pose's own, else the configured one.
  unfoldable pub pose_frame : Config F → PoseStamped F → String
  pose_frame cfg pose = if str_eq pose.frame_id "" then cfg.frame_id else pose.frame_id

  -- A command without its target, and with the frame of the configuration.
  unfoldable pub base_command : Config F → ℕ → ℕ → ℕ → TeleopCommand F
  base_command cfg now sequence_id mode = record {
    stamp = now;
    frame_id = cfg.frame_id;
    robot_name = cfg.robot_name;
    sequence_id = sequence_id;
    control_mode = mode;
    enable = cfg.enable;
    emergency_stop = false;
    command_frame = cfg.frame_id;
    joint_command = empty_joints;
    target_pose = empty_pose;
    target_twist = empty_twist;
  }

  unfoldable pub twist_command : Config F → ℕ → ℕ → ℕ → Vector3 F → Vector3 F → TeleopCommand F
  twist_command cfg now sequence_id mode linear angular =
      record (base_command cfg now sequence_id mode) {
        target_twist = record {
          stamp = now;
          frame_id = cfg.frame_id;
          linear = linear;
          angular = angular;
        };
      }

  unfoldable pub pose_command : Config F → ℕ → ℕ → ℕ → PoseStamped F → TeleopCommand F
  pose_command cfg now sequence_id mode pose = record (base_command cfg now sequence_id mode) {
    command_frame = pose_frame cfg pose;
    target_pose = record pose { stamp = now; frame_id = pose_frame cfg pose };
  }

  -- The message that `publish_command` builds.
  unfoldable pub command_message :
      Config F → ℕ → ℕ → Vector3 F → Vector3 F → ℕ → Option (PoseStamped F) → TeleopCommand F
  command_message cfg now sequence_id linear angular mode none =
      twist_command cfg now sequence_id mode linear angular
  command_message cfg now sequence_id linear angular mode (some pose) =
      if mode == mode_cartesian_pose
      then pose_command cfg now sequence_id mode pose
      else twist_command cfg now sequence_id mode linear angular

  unfoldable pub publish_command :
      Env F → Config F → Vector3 F → Vector3 F → ℕ → Option (PoseStamped F) → World F → World F
  publish_command env cfg linear angular mode pose w =
      let msg =
        command_message cfg (env w.moment).now w.node.sequence_id linear angular mode pose in
      emit (command msg)
        (record (pass w) { node = record w.node { sequence_id = suc w.node.sequence_id } })

  unfoldable pub publish_tick : Env F → Config F → World F → World F
  publish_tick env cfg w =
      let (linear, angular) =
        held_keys_to_twist (some w.node.held_keys) cfg.linear_step cfg.angular_step in
      publish_command env cfg linear angular mode_cartesian_twist none w
