-- ===== src/Servo/Dispatch.antt =====
-- The actions of the servo node, and its loop, for a predicate that each single step preserves.
use Prim.Native.String.{String}
use text.Mathlib.Text.{◌==◌ as str_eq}
use digital_twin_based_on_un.Common.{
  ℕ, zero, suc, ◌≡◌, refl, inl, inr, Bool, true, false, ◌&&◌, not, ◌==◌, leb, List, [], ◌∷◌, Option,
  none, some, length, if◌then◌else◌, if_lem, ==_iff, arith,
}
use digital_twin_based_on_un.Common.Floats.{Floats}
use digital_twin_based_on_un.Msgs.{PoseStamped}
use digital_twin_based_on_un.Jog.{
  action_stop, action_home, action_toggle_controller, action_record_home, action_record_zero,
  action_stop_and_clear,
}
use digital_twin_based_on_un.Servo.{ControllerMode, Config, goal, Env, World, pass, emit}
use digital_twin_based_on_un.Servo.Commands.{spin, publish_tick}
use digital_twin_based_on_un.Servo.Controllers.{
  is_trajectory, get_controller_mode, to_trajectory, split_seconds, switch_to_servo_controller,
}
use digital_twin_based_on_un.Servo.Home.{
  is_empty, record_current_as_home, record_current_as_zero, prepare_home, send_home_goal,
  send_home_joint_trajectory, publish_kept_pose, publish_home_pose,
}
use digital_twin_based_on_un.Servo.Loop.{
  publish_idle, stop_and_clear, dispatch_action, run_next, process_pending_actions, loop_round,
  spin_unity_keyboard,
}
use digital_twin_based_on_un.Servo.Closed.{Closed, IsHomeReady, IsTrajectoryReady}
use digital_twin_based_on_un.Servo.Switching.{
  get_controller_mode-IsTrajectoryReady, switch_controllers-IsTrajectoryReady,
}
use digital_twin_based_on_un.Servo.Actions.{
  get_controller_mode-Closed, to_trajectory-Closed, switch_to_servo_controller-Closed,
  toggle_motion_controller-Closed,
}

module _ {F : Type 0} ⦃fl : Floats F⦄ (env : Env F) (cfg : Config F) where
  to_trajectory-IsTrajectoryReady :
      (mode : ControllerMode) (w : World F)
      → (to_trajectory env cfg mode w).0 ≡ true
      → IsTrajectoryReady cfg (to_trajectory env cfg mode w).1.trace
  unfolding to_trajectory
  to_trajectory-IsTrajectoryReady mode w ok = switch_controllers-IsTrajectoryReady env cfg _ _ ok

  prepare_home-IsHomeReady :
      (w : World F)
      → (prepare_home env cfg w).0 ≡ true
      → IsHomeReady cfg (prepare_home env cfg w).2.trace
  unfolding prepare_home
  prepare_home-IsHomeReady w go_on = ground (
    arith,
    get_controller_mode-IsTrajectoryReady env cfg w,
    to_trajectory-IsTrajectoryReady (get_controller_mode env cfg w).0
        (get_controller_mode env cfg w).1,
  )

module _ {ℓ} {F : Type 0} ⦃fl : Floats F⦄ (env : Env F) (cfg : Config F) (P : World F → Type ℓ)
    (closed : Closed env cfg P) where
  prepare_home-Closed : (w : World F) → P w → P (prepare_home env cfg w).2
  unfolding prepare_home
  prepare_home-Closed w h =
      let mode : ControllerMode = (get_controller_mode env cfg w).0 in
      let v : World F = (get_controller_mode env cfg w).1 in
      let h₁ : P v = get_controller_mode-Closed env cfg P closed w h in
      if_lem (λ (r : Bool × Bool × World F). P r.2) cfg.auto_switch_for_home _ (true, false, w)
        (λ switching.
          if_lem (λ (r : Bool × Bool × World F). P r.2) (is_trajectory mode) _ _ (λ active. h₁)
            (λ other. to_trajectory-Closed env cfg P closed mode v h₁))
        (λ manual. h)

  send_home_goal-Closed :
      (restore_servo : Bool) (w : World F)
      → length cfg.home_joint_names ≡ length cfg.home_joint_positions
      → IsHomeReady cfg w.trace
      → P w
      → P (send_home_goal env cfg restore_servo w)
  unfolding send_home_goal
  send_home_goal-Closed restore_servo w same ready h =
      let accepted : Bool = (env (suc w.moment)).accepted in
      let sent : World F =
        emit
          (goal cfg.home_joint_names cfg.home_joint_positions (split_seconds cfg.home_duration_s)
            accepted)
          (spin env (pass w)) in
      let done : World F = spin env sent in
      let h₁ : P sent =
        closed.goals (split_seconds cfg.home_duration_s) accepted (spin env (pass w)) same
          (unfold spin pass in ready) (closed.spins _ (closed.passes w h)) in
      let h₂ : P done = closed.spins sent h₁ in
      if_lem P (env w.moment).ready
        (if accepted
          then (if restore_servo then (switch_to_servo_controller env cfg done).1 else done)
          else sent)
        (pass w)
        (λ there.
          if_lem P accepted
            (if restore_servo then (switch_to_servo_controller env cfg done).1 else done) sent
            (λ yes.
              if_lem P restore_servo (switch_to_servo_controller env cfg done).1 done
                (λ restore. switch_to_servo_controller-Closed env cfg P closed done h₂)
                (λ keep. h₂))
            (λ no. h₁))
        (λ gone. closed.passes w h)

  send_home_joint_trajectory-Closed : (w : World F) → P w → P (send_home_joint_trajectory env cfg w)
  unfolding send_home_joint_trajectory
  send_home_joint_trajectory-Closed w h =
      let restore_servo : Bool = (prepare_home env cfg w).1 in
      let v : World F = (prepare_home env cfg w).2 in
      let h₁ : P v = prepare_home-Closed w h in
      if_lem P (length cfg.home_joint_names == length cfg.home_joint_positions)
        (if (prepare_home env cfg w).0 then send_home_goal env cfg restore_servo v else v) w
        (λ same.
          if_lem P (prepare_home env cfg w).0 (send_home_goal env cfg restore_servo v) v
            (λ go_on.
              send_home_goal-Closed restore_servo v ((==_iff _ _).0 same)
                (prepare_home-IsHomeReady env cfg w go_on) h₁)
            (λ refused. h₁))
        (λ different. h)

  publish_kept_pose-Closed :
      (pose : Option (PoseStamped F)) (w : World F) → P w → P (publish_kept_pose env cfg pose w)
  unfolding publish_kept_pose
  publish_kept_pose-Closed none w h = h
  publish_kept_pose-Closed (some pose) w h = closed.commands _ _ _ (some pose) w (inr (inl refl)) h

  publish_home_pose-Closed : (w : World F) → P w → P (publish_home_pose env cfg w)
  unfolding publish_home_pose
  publish_home_pose-Closed w h =
      if_lem P (not (is_empty cfg.home_joint_names) && not (is_empty cfg.home_joint_positions)) _ _
        (λ joints. send_home_joint_trajectory-Closed w h)
        (λ pose. publish_kept_pose-Closed w.node.home_pose w h)

  pub dispatch_action-Closed :
      (action : String) (w : World F) → P w → P (dispatch_action env cfg action w)
  unfolding dispatch_action publish_idle stop_and_clear record_current_as_home
      record_current_as_zero pass
  dispatch_action-Closed action w h =
      if_lem P (str_eq action action_stop) _ _ (λ yes. closed.commands _ _ _ _ w (inl refl) h)
        (λ no.
          if_lem P (str_eq action action_home) _ _ (λ yes. publish_home_pose-Closed w h)
            (λ no.
              if_lem P (str_eq action action_toggle_controller) _ _
                (λ yes. toggle_motion_controller-Closed env cfg P closed w h)
                (λ no.
                  if_lem P (str_eq action action_record_home) _ _
                    (λ yes. closed.keeps_home _ (pass w) (closed.passes w h))
                    (λ no.
                      if_lem P (str_eq action action_record_zero) _ _
                        (λ yes. closed.keeps_zero _ (pass w) (closed.passes w h))
                        (λ no.
                          if_lem P (str_eq action action_stop_and_clear) _ _
                            (λ yes. closed.commands _ _ _ _ _ (inl refl) (closed.clears w h))
                            (λ no. h))))))

  -- The loop also takes actions from the queue and publishes ticks.
  module _
      (pops : (rest : List String) (w : World F)
        → P w
        → P (record w { node = record w.node { pending_actions = rest } })) where
    run_next-Closed : (queue : List String) (w : World F) → P w → P (run_next env cfg queue w)
    unfolding run_next
    run_next-Closed [] w h = h
    run_next-Closed (action ∷ rest) w h = dispatch_action-Closed action _ (pops rest w h)

    process_pending_actions-Closed :
        (fuel : ℕ) (w : World F) → P w → P (process_pending_actions fuel env cfg w)
    unfolding process_pending_actions
    process_pending_actions-Closed zero w h = h
    process_pending_actions-Closed (suc fuel) w h =
        process_pending_actions-Closed fuel _ (run_next-Closed w.node.pending_actions w h)

    publish_tick-Closed : (w : World F) → P w → P (publish_tick env cfg w)
    unfolding publish_tick
    publish_tick-Closed w h = closed.commands _ _ _ _ w (inr (inr refl)) h

    loop_round-Closed : (fuel : ℕ) (s : World F × ℕ) → P s.0 → P (loop_round fuel env cfg s).0
    unfolding loop_round
    loop_round-Closed fuel (w, next_publish) h =
        let v : World F = process_pending_actions fuel env cfg (spin env w) in
        let h₁ : P v = process_pending_actions-Closed fuel (spin env w) (closed.spins w h) in
        if_lem (λ (r : World F × ℕ). P r.0) (leb next_publish (env v.moment).now) _ _
          (λ due. publish_tick-Closed (pass v) (closed.passes v h₁)) (λ early. closed.passes v h₁)

    pub spin_unity_keyboard-Closed :
        (n fuel : ℕ) (s : World F × ℕ) → P s.0 → P (spin_unity_keyboard n fuel env cfg s).0
    unfolding spin_unity_keyboard
    spin_unity_keyboard-Closed zero fuel s h = h
    spin_unity_keyboard-Closed (suc n) fuel s h =
        spin_unity_keyboard-Closed n fuel _ (loop_round-Closed fuel s h)
