-- ===== src/Servo/Actions.antt =====
-- The operations on the controllers, for a predicate that each single step preserves.
use Prim.Native.String.{String}
use digital_twin_based_on_un.Common.{
  ℕ, zero, suc, ◌≡◌, refl, Bool, true, false, inl, inr, List, Option, is_some, length, max,
  if◌then◌else◌, if_lem, Option-cases,
}
use digital_twin_based_on_un.Common.Int.{ℤ, pos, pos_part}
use digital_twin_based_on_un.Common.Floats.{Floats}
use digital_twin_based_on_un.Msgs.{JointState}
use digital_twin_based_on_un.Servo.{
  ControllerMode, Config, listed, switched, stopped, started, reset, Env, World, pass, emit,
}
use digital_twin_based_on_un.Servo.Commands.{spin}
use digital_twin_based_on_un.Servo.Controllers.{
  is_trajectory, mode_of, answered, get_controller_mode, call_trigger_service, stop_moveit_servo,
  start_moveit_servo, reset_moveit_servo_status, await_joint_state, seed_positions,
  current_joint_positions_for_servo, seed_rounds, publish_servo_seed, seed_if, switch_controllers,
  to_trajectory, request_servo, finish_servo, switch_to_servo_controller, toggle_motion_controller,
  split_seconds,
}
use digital_twin_based_on_un.Servo.Closed.{Closed, IsServoReady}
use digital_twin_based_on_un.Servo.Switching.{
  length-seed_positions, switch_controllers-IsServoReady, seed_if-IsServoReady,
  reset_moveit_servo_status-IsServoReady,
}

module _ {ℓ} {F : Type 0} ⦃fl : Floats F⦄ (env : Env F) (cfg : Config F) (P : World F → Type ℓ)
    (closed : Closed env cfg P) where
  pub get_controller_mode-Closed : (w : World F) → P w → P (get_controller_mode env cfg w).1
  unfolding get_controller_mode
  get_controller_mode-Closed w h =
      let answer : Option (List (String × String)) = (env (suc w.moment)).controllers in
      if_lem (λ (r : ControllerMode × World F). P r.1) (env w.moment).ready
        (mode_of cfg answer, emit (listed answer) (spin env (pass w)))
        (ControllerMode.unknown, pass w)
        (λ ready. closed.lists answer _ (closed.spins _ (closed.passes w h)))
        (λ gone. closed.passes w h)

  stop_moveit_servo-Closed : (w : World F) → P w → P (stop_moveit_servo env cfg w).1
  unfolding stop_moveit_servo call_trigger_service
  stop_moveit_servo-Closed w h =
      let answer : Option Bool = (env (suc w.moment)).success in
      if_lem (λ (r : Bool × World F). P r.1) cfg.manage_servo_node_on_switch
        (call_trigger_service env (λ success. stopped success) w) (true, w)
        (λ managed.
          if_lem (λ (r : Bool × World F). P r.1) (env w.moment).ready
            (answered answer, emit (stopped answer) (spin env (pass w))) (false, pass w)
            (λ ready. closed.stops answer _ (closed.spins _ (closed.passes w h)))
            (λ gone. closed.passes w h))
        (λ unmanaged. h)

  start_moveit_servo-Closed :
      (w : World F) → IsServoReady cfg w.trace → P w → P (start_moveit_servo env cfg w).1
  unfolding start_moveit_servo call_trigger_service
  start_moveit_servo-Closed w ok h =
      let answer : Option Bool = (env (suc w.moment)).success in
      if_lem (λ (r : Bool × World F). P r.1) cfg.manage_servo_node_on_switch
        (call_trigger_service env (λ success. started success) w) (true, w)
        (λ managed.
          if_lem (λ (r : Bool × World F). P r.1) (env w.moment).ready
            (answered answer, emit (started answer) (spin env (pass w))) (false, pass w)
            (λ ready.
              closed.starts answer (spin env (pass w)) (unfold spin pass in ok)
                (closed.spins _ (closed.passes w h)))
            (λ gone. closed.passes w h))
        (λ unmanaged. h)

  reset_moveit_servo_status-Closed : (w : World F) → P w → P (reset_moveit_servo_status env cfg w).1
  unfolding reset_moveit_servo_status
  reset_moveit_servo_status-Closed w h =
      let done : Bool = (env (suc w.moment)).reset_done in
      if_lem (λ (r : Bool × World F). P r.1) cfg.manage_servo_node_on_switch
        (if (env w.moment).ready
          then (done, emit (reset done) (spin env (pass w)))
          else (false, pass w))
        (true, w)
        (λ managed.
          if_lem (λ (r : Bool × World F). P r.1) (env w.moment).ready
            (done, emit (reset done) (spin env (pass w))) (false, pass w)
            (λ ready. closed.resets done _ (closed.spins _ (closed.passes w h)))
            (λ gone. closed.passes w h))
        (λ unmanaged. h)

  await_joint_state-Closed : (n : ℕ) (w : World F) → P w → P (await_joint_state env n w)
  unfolding await_joint_state
  await_joint_state-Closed zero w h = h
  await_joint_state-Closed (suc n) w h =
      if_lem P (is_some (spin env w).node.last_joint_state) (spin env w)
        (await_joint_state env n (spin env w)) (λ there. closed.spins w h)
        (λ missing. await_joint_state-Closed n (spin env w) (closed.spins w h))

  seed_rounds-Closed :
      (positions : List F) (n : ℕ) (w : World F)
      → length positions ≡ length cfg.home_joint_names
      → P w
      → P (seed_rounds env positions n w)
  unfolding seed_rounds
  seed_rounds-Closed positions zero w same h = h
  seed_rounds-Closed positions (suc n) w same h =
      seed_rounds-Closed positions n _ same (closed.spins _ (closed.seeds positions w same h))

  seed_if-Closed :
      (joints : Option (JointState F)) (count : ℤ) (w : World F)
      → P w
      → P (seed_if env cfg (seed_positions cfg joints) count w)
  unfolding seed_if publish_servo_seed
  seed_if-Closed joints count w h = elim (Option-cases (seed_positions cfg joints)) [
    | inl nothing ↦ rw nothing h
    | inr (positions, found) ↦ rw found (
        if_lem P cfg.seed_servo_on_switch (publish_servo_seed env positions count w) w
          (λ on.
            seed_rounds-Closed positions (max (pos_part count) 1) w
              (length-seed_positions cfg joints positions found) h)
          (λ off. h))
  ]

  switch_controllers-Closed :
      (activate deactivate : List String) (w : World F)
      → P w
      → P (switch_controllers env cfg activate deactivate w).1
  unfolding switch_controllers
  switch_controllers-Closed activate deactivate w h =
      let ok : Option Bool = (env (suc w.moment)).switch_ok in
      let timeout : ℤ × ℤ = split_seconds cfg.switch_controller_timeout_s in
      if_lem (λ (r : Bool × World F). P r.1) (env w.moment).ready
        (answered ok, emit (switched activate deactivate timeout ok) (spin env (pass w)))
        (false, pass w)
        (λ ready.
          closed.switches activate deactivate timeout ok _ (closed.spins _ (closed.passes w h)))
        (λ gone. closed.passes w h)

  pub to_trajectory-Closed :
      (mode : ControllerMode) (w : World F) → P w → P (to_trajectory env cfg mode w).1
  unfolding to_trajectory
  to_trajectory-Closed mode w h =
      switch_controllers-Closed _ _ (stop_moveit_servo env cfg w).1 (stop_moveit_servo-Closed w h)

  -- The switch to the servo controller: what holds after the request, and that the servo
  -- controller is ready when the answer was good.
  request_servo-Closed :
      (w : World F)
      → P w
      → P (request_servo env cfg w).2
        × (joints : Option (JointState F)) × ((request_servo env cfg w).1
            ≡ seed_positions cfg joints)
  unfolding request_servo current_joint_positions_for_servo
  request_servo-Closed w h =
      let w₁ : World F = (get_controller_mode env cfg w).1 in
      let w₂ : World F = (stop_moveit_servo env cfg w₁).1 in
      let w₃ : World F = await_joint_state env 5 w₂ in
      (
        switch_controllers-Closed _ _ _ (
            seed_if-Closed w₃.node.last_joint_state (pos 1) w₃ (
              await_joint_state-Closed 5 w₂
                (stop_moveit_servo-Closed w₁ (get_controller_mode-Closed w h)))),
        w₃.node.last_joint_state,
        refl,
      )

  request_servo-IsServoReady :
      (w : World F)
      → (request_servo env cfg w).0 ≡ true
      → IsServoReady cfg (request_servo env cfg w).2.trace
  unfolding request_servo
  request_servo-IsServoReady w ok = switch_controllers-IsServoReady env cfg _ _ ok

  finish_servo-Closed :
      (joints : Option (JointState F)) (w : World F)
      → IsServoReady cfg w.trace
      → P w
      → P (finish_servo env cfg (seed_positions cfg joints) w)
  unfolding finish_servo
  finish_servo-Closed joints w ready h =
      let w₁ : World F =
        seed_if env cfg (seed_positions cfg joints) cfg.servo_seed_publish_count w in
      let ready₁ = seed_if-IsServoReady env cfg (seed_positions cfg joints) _ w ready in
      let h₁ = seed_if-Closed joints cfg.servo_seed_publish_count w h in
      start_moveit_servo-Closed (reset_moveit_servo_status env cfg w₁).1
        (reset_moveit_servo_status-IsServoReady env cfg w₁ ready₁)
        (reset_moveit_servo_status-Closed w₁ h₁)

  pub switch_to_servo_controller-Closed :
      (w : World F) → P w → P (switch_to_servo_controller env cfg w).1
  unfolding switch_to_servo_controller
  switch_to_servo_controller-Closed w h =
      let (after, joints, same) = request_servo-Closed w h in
      let positions : Option (List F) = (request_servo env cfg w).1 in
      let v : World F = (request_servo env cfg w).2 in
      if_lem (λ (r : Bool × World F). P r.1) (request_servo env cfg w).0
        (true, finish_servo env cfg positions v) (false, v)
        (λ ok. rw same (finish_servo-Closed joints v (request_servo-IsServoReady w ok) after))
        (λ refused. after)

  pub toggle_motion_controller-Closed : (w : World F) → P w → P (toggle_motion_controller env cfg w)
  unfolding toggle_motion_controller
  toggle_motion_controller-Closed w h =
      let mode : ControllerMode = (get_controller_mode env cfg w).0 in
      let v : World F = (get_controller_mode env cfg w).1 in
      let h₁ = get_controller_mode-Closed w h in
      if_lem P (is_trajectory mode) (switch_to_servo_controller env cfg v).1
        (to_trajectory env cfg mode v).1 (λ active. switch_to_servo_controller-Closed v h₁)
        (λ other. to_trajectory-Closed mode v h₁)
