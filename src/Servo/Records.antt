-- ===== src/Servo/Records.antt =====
-- The recorded pose and the stop action: what the next commands carry.
use text.Mathlib.Text.{◌==◌ as str_eq}
use digital_twin_based_on_un.Common.{
  ℕ, suc, ◌≡◌, refl, false, true, List, [], ◌∷◌, none, All, arith,
}
use digital_twin_based_on_un.Common.Int.{sub_ℕ}
use digital_twin_based_on_un.Common.Floats.{Floats}
use digital_twin_based_on_un.Msgs.{
  PoseStamped, TeleopCommand, mode_cartesian_pose, mode_cartesian_twist, mode_idle,
}
use digital_twin_based_on_un.Jog.{
  action_record_home, action_home, action_stop_and_clear, held_keys_to_twist,
}
use digital_twin_based_on_un.Servo.{
  Config, Node, Callback, keys, observation, joint_state, command, Env, World, pass, emit,
}
use digital_twin_based_on_un.Servo.Commands.{
  handle, deliver, on_joint_state, on_observation, command_message, twist_command, base_command,
  pose_command, pose_frame, publish_command, publish_tick, zero_axes,
}
use digital_twin_based_on_un.Servo.Home.{
  is_empty, if_fresh, fresh_pose, fresh_current_pose, record_current_as_home, publish_kept_pose,
  publish_home_pose,
}
use digital_twin_based_on_un.Servo.Numbering.{deliver-sequence_id}
use digital_twin_based_on_un.Servo.Loop.{publish_idle, stop_and_clear, dispatch_action}

module _ {F : Type 0} where
  -- A callback that is no message of the keyboard.
  abbrev pub IsKeyless : Callback F → Type 0
  IsKeyless (keys held action) = ⊥
  IsKeyless (observation now msg) = Unit
  IsKeyless (joint_state msg) = Unit

  deliver-held_keys :
      (cs : List (Callback F)) (n : Node F)
      → All IsKeyless cs
      → (deliver cs n).held_keys ≡ n.held_keys
  unfolding deliver handle on_observation on_joint_state
  deliver-held_keys [] n keyless = refl
  deliver-held_keys (keys held action ∷ cs) n keyless = absurd keyless.0
  deliver-held_keys (observation now msg ∷ cs) n keyless =
      ground (arith, deliver-held_keys cs (on_observation now msg n) keyless.1)
  deliver-held_keys (joint_state msg ∷ cs) n keyless =
      deliver-held_keys cs (on_joint_state msg n) keyless.1

module _ {F : Type 0} ⦃fl : Floats F⦄ (env : Env F) (cfg : Config F) where
  -- Without a joint home, an observation that names its frame, then the action r while the
  -- observation is not too old, then the action h, publish one command: a pose command for the
  -- pose observed, in its frame, stamped with the time of the command.
  pub dispatch_action-record_home :
      (w : World F) (kept_at : ℕ) (pose : PoseStamped F)
      → str_eq pose.frame_id "" ≡ false
      → fl.lt cfg.current_pose_timeout_s
          (fl.mul (fl.of_int (sub_ℕ (env w.moment).now kept_at)) fl.nano)
        ≡ false
      → is_empty cfg.home_joint_names ≡ true
      → (msg : TeleopCommand F) × ((dispatch_action env cfg action_home (
            dispatch_action env cfg action_record_home
              (record w { node = on_observation kept_at pose w.node }))).trace
          ≡ command msg ∷ w.trace)
        × (msg.control_mode ≡ mode_cartesian_pose)
        × (msg.target_pose ≡ record pose { stamp = (env (suc w.moment)).now })
        × (msg.command_frame ≡ pose.frame_id)
  unfolding dispatch_action record_current_as_home fresh_current_pose fresh_pose if_fresh
      on_observation publish_home_pose publish_kept_pose publish_command command_message emit pass
  dispatch_action-record_home w kept_at pose framed fresh cartesian = (
    pose_command cfg (env (suc w.moment)).now w.node.sequence_id mode_cartesian_pose pose,
    rw framed (rw fresh (rw cartesian refl)),
    unfold pose_command base_command in refl,
    unfold pose_command pose_frame base_command in rw framed refl,
    unfold pose_command pose_frame base_command in rw framed refl,
  )

  -- The action x publishes an idle command, and a later tick publishes the twist of no keys,
  -- whatever keys were held before and whatever was received since, as long as no message of the
  -- keyboard was.
  publish_tick-stop_and_clear :
      (w : World F) (received : List (Callback F))
      → All IsKeyless received
      → let (linear, angular) = held_keys_to_twist none cfg.linear_step cfg.angular_step in
        let id = w.node.sequence_id in
        let stopped = dispatch_action env cfg action_stop_and_clear w in
        (publish_tick env cfg (record stopped { node = deliver received stopped.node })).trace
        ≡ command (
            twist_command cfg (env (suc w.moment)).now (suc id) mode_cartesian_twist linear angular)
          ∷ command (twist_command cfg (env w.moment).now id mode_idle zero_axes zero_axes)
          ∷ w.trace
  unfolding dispatch_action stop_and_clear publish_idle publish_command publish_tick command_message
      emit pass held_keys_to_twist
  publish_tick-stop_and_clear w received keyless =
      let n : Node F = record w.node { held_keys = []; sequence_id = suc w.node.sequence_id } in
      rw (deliver-sequence_id received n, deliver-held_keys received n keyless) refl
