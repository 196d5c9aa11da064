-- ===== src/Servo/Toggling.antt =====
-- What the toggle of the motion controller does at the interfaces, step by step.
use Prim.Native.String.{String}
use digital_twin_based_on_un.Common.{
  ℕ, zero, suc, ◌≡◌, refl, ap, ◌∙◌, List, [], ◌∷◌, Option, none, some, max, if◌then◌else◌, arith,
}
use digital_twin_based_on_un.Common.Int.{ℤ, pos, pos_part}
use digital_twin_based_on_un.Common.Floats.{Floats}
use digital_twin_based_on_un.Msgs.{JointState}
use digital_twin_based_on_un.Servo.{
  ControllerMode, Config, seed, listed, switched, stopped, started, reset, Env, World, pass, emit,
}
use digital_twin_based_on_un.Servo.Commands.{spin}
use digital_twin_based_on_un.Servo.Controllers.{
  is_trajectory, is_servo, mode_of, answered, get_controller_mode, call_trigger_service,
  stop_moveit_servo, start_moveit_servo, reset_moveit_servo_status, await_joint_state,
  seed_positions, current_joint_positions_for_servo, seed_rounds, publish_servo_seed, seed_if,
  switch_controllers, to_trajectory, request_servo, finish_servo, switch_to_servo_controller,
  toggle_motion_controller, split_seconds,
}
use digital_twin_based_on_un.Servo.Switching.{spin-trace, await_joint_state-trace}
use digital_twin_based_on_un.Servo.Script.{
  Replies, Steady, times, seeds, requested, finished, to_trajectory_from, toggled,
}

module _ {F : Type 0} (env : Env F) (cfg : Config F) (a : Replies) (steady : Steady env a) where
  pub get_controller_mode-steady :
      (w : World F)
      → ((get_controller_mode env cfg w).0 ≡ mode_of cfg a.controllers)
        × ((get_controller_mode env cfg w).1.trace ≡ listed a.controllers ∷ w.trace)
  unfolding get_controller_mode emit spin pass
  get_controller_mode-steady w =
      rw (steady.present w.moment, steady.lists (suc w.moment)) (refl, refl)

  stop_moveit_servo-steady :
      (w : World F)
      → (stop_moveit_servo env cfg w).1.trace
        ≡ (if cfg.manage_servo_node_on_switch then stopped a.success ∷ w.trace else w.trace)
  unfolding stop_moveit_servo call_trigger_service emit spin pass
  stop_moveit_servo-steady w =
      ground (arith, steady.present w.moment, steady.triggers (suc w.moment))

  start_moveit_servo-steady :
      (w : World F)
      → (start_moveit_servo env cfg w).1.trace
        ≡ (if cfg.manage_servo_node_on_switch then started a.success ∷ w.trace else w.trace)
  unfolding start_moveit_servo call_trigger_service emit spin pass
  start_moveit_servo-steady w =
      ground (arith, steady.present w.moment, steady.triggers (suc w.moment))

  reset_moveit_servo_status-steady :
      (w : World F)
      → (reset_moveit_servo_status env cfg w).1.trace
        ≡ (if cfg.manage_servo_node_on_switch then reset a.reset_done ∷ w.trace else w.trace)
  unfolding reset_moveit_servo_status emit spin pass
  reset_moveit_servo_status-steady w =
      ground (arith, steady.present w.moment, steady.resets (suc w.moment))

  seed_rounds-trace :
      (positions : List F) (n : ℕ) (w : World F)
      → (seed_rounds env positions n w).trace ≡ times n (seed positions) w.trace
  unfolding seed_rounds emit
  seed_rounds-trace positions zero w = refl
  seed_rounds-trace positions (suc n) w =
      seed_rounds-trace positions n (spin env (emit (seed positions) w))
      ∙ ap (times n (seed positions)) (spin-trace env (emit (seed positions) w))

  seed_if-trace :
      (positions : Option (List F)) (count : ℤ) (w : World F)
      → (seed_if env cfg positions count w).trace ≡ seeds cfg positions count w.trace
  unfolding seed_if publish_servo_seed
  seed_if-trace none count w = refl
  seed_if-trace (some positions) count w =
      ground (arith, seed_rounds-trace positions (max (pos_part count) 1) w)

module _ {F : Type 0} ⦃fl : Floats F⦄ (env : Env F) (cfg : Config F) (a : Replies)
    (steady : Steady env a) where
  switch_controllers-steady :
      (activate deactivate : List String) (w : World F)
      → ((switch_controllers env cfg activate deactivate w).0 ≡ answered a.switch_ok)
        × ((switch_controllers env cfg activate deactivate w).1.trace
            ≡ switched activate deactivate
                (split_seconds cfg.switch_controller_timeout_s)
                a.switch_ok
              ∷ w.trace)
  unfolding switch_controllers emit spin pass
  switch_controllers-steady activate deactivate w =
      rw (steady.present w.moment, steady.switches (suc w.moment)) (refl, refl)

  pub to_trajectory-steady :
      (mode : ControllerMode) (w : World F)
      → mode ≡ mode_of cfg a.controllers
      → ((to_trajectory env cfg mode w).0 ≡ answered a.switch_ok)
        × ((to_trajectory env cfg mode w).1.trace ≡ to_trajectory_from cfg a w.trace)
  unfolding to_trajectory
  to_trajectory-steady mode w e =
      let v = (stop_moveit_servo env cfg w).1 in
      let active = cfg.trajectory_controller ∷ [] in
      let inactive = if is_servo mode then cfg.servo_controller ∷ [] else [] in
      (
        (switch_controllers-steady active inactive v).0,
        rw
            (
              (switch_controllers-steady active inactive v).1,
              e,
              stop_moveit_servo-steady env cfg a steady w,
            )
            refl,
      )

  finish_servo-steady :
      (positions : Option (List F)) (w : World F)
      → (finish_servo env cfg positions w).trace ≡ finished cfg a positions w.trace
  unfolding finish_servo
  finish_servo-steady positions w =
      let w₁ : World F = seed_if env cfg positions cfg.servo_seed_publish_count w in
      let w₂ : World F = (reset_moveit_servo_status env cfg w₁).1 in
      ground (
        arith,
        start_moveit_servo-steady env cfg a steady w₂,
        reset_moveit_servo_status-steady env cfg a steady w₁,
        seed_if-trace env cfg a steady positions cfg.servo_seed_publish_count w,
      )

  request_servo-steady :
      (w : World F)
      → (held : Option (JointState F)) × ((request_servo env cfg w).0 ≡ answered a.switch_ok)
        × ((request_servo env cfg w).1 ≡ seed_positions cfg held)
        × ((request_servo env cfg w).2.trace ≡ requested cfg a (seed_positions cfg held) w.trace)
  unfolding request_servo current_joint_positions_for_servo
  request_servo-steady w =
      let (mode, w₁) = get_controller_mode env cfg w in
      let w₂ = (stop_moveit_servo env cfg w₁).1 in
      let w₃ = await_joint_state env 5 w₂ in
      let held = w₃.node.last_joint_state in
      let w₄ = seed_if env cfg (seed_positions cfg held) (pos 1) w₃ in
      (
        held,
        (switch_controllers-steady _ _ w₄).0,
        refl,
        rw
            (
              (switch_controllers-steady (cfg.servo_controller ∷ [])
                  (if is_trajectory mode then cfg.trajectory_controller ∷ [] else []) w₄).1,
              (get_controller_mode-steady env cfg a steady w).0,
              seed_if-trace env cfg a steady (seed_positions cfg held) (pos 1) w₃,
              await_joint_state-trace env 5 w₂,
              stop_moveit_servo-steady env cfg a steady w₁,
              (get_controller_mode-steady env cfg a steady w).1,
            )
            refl,
      )

  switch_to_servo_controller-steady :
      (w : World F)
      → (held : Option (JointState F)) × ((switch_to_servo_controller env cfg w).1.trace ≡ (
          let es = requested cfg a (seed_positions cfg held) w.trace in
          if answered a.switch_ok then finished cfg a (seed_positions cfg held) es else es))
  unfolding switch_to_servo_controller
  switch_to_servo_controller-steady w =
      let (held, ok, positions, trace) = request_servo-steady w in
      let v : World F = (request_servo env cfg w).2 in
      (held, ground (arith, ok, positions, trace, finish_servo-steady (seed_positions cfg held) v))

  pub toggle_motion_controller_lem :
      (w : World F)
      → (held : Option (JointState F)) × ((toggle_motion_controller env cfg w).trace
          ≡ toggled cfg a (seed_positions cfg held) w.trace)
  unfolding toggle_motion_controller
  toggle_motion_controller_lem w =
      let (mode, v) = get_controller_mode env cfg w in
      let (shows, lists) = get_controller_mode-steady env cfg a steady w in
      let (held, trace) = switch_to_servo_controller-steady v in
      (held, ground (arith, shows, lists, trace, to_trajectory-steady mode v shows))
