-- ===== src/Servo/Switching.antt =====
-- The calls of the servo and controller services preserve what each single step preserves, and
-- the states of the controllers that they establish.
use digital_twin_based_on_un.Common.{
  ℕ, zero, suc, ◌≡◌, refl, true, inl, inr, List, [], ◌∷◌, Option, none, some, length, max, if_lem,
  Option-cases, arith,
}
use digital_twin_based_on_un.Common.Int.{ℤ, pos_part}
use digital_twin_based_on_un.Common.Floats.{Floats}
use Prim.Native.String.{String}
use digital_twin_based_on_un.Msgs.{JointState}
use digital_twin_based_on_un.Bridges.Joints.{lookup, fill}
use digital_twin_based_on_un.Servo.{Config, seed, Env, World, pass, emit}
use digital_twin_based_on_un.Servo.Commands.{spin}
use digital_twin_based_on_un.Servo.Controllers.{
  is_trajectory, get_controller_mode, reset_moveit_servo_status, await_joint_state, values_of,
  seed_positions, seed_rounds, publish_servo_seed, seed_if, switch_controllers,
}
use digital_twin_based_on_un.Servo.Closed.{IsServoReady, IsTrajectoryReady}

module _ {F : Type 0} where
  pub spin-trace : (env : Env F) (w : World F) → (spin env w).trace ≡ w.trace
  unfolding spin pass
  spin-trace env w = refl

  pub await_joint_state-trace :
      (env : Env F) (n : ℕ) (w : World F) → (await_joint_state env n w).trace ≡ w.trace
  unfolding await_joint_state
  await_joint_state-trace env zero w = refl
  await_joint_state-trace env (suc n) w =
      ground (arith, spin-trace env w, await_joint_state-trace env n (spin env w))

  -- The seed has a position for each of the configured joints.
  length-values_of :
      (d : List (String × F)) (names : List String) (vs : List F)
      → values_of d names ≡ some vs
      → length vs ≡ length names
  length-values_of d [] vs h = ground arith
  length-values_of d (name ∷ names) vs h = elim (Option-cases (lookup name d)) [
    | inl missing ↦ ground arith
    | inr (v, found) ↦ elim (Option-cases (values_of d names)) [
      | inl missing ↦ ground arith
      | inr (us, rest) ↦ ground (arith, length-values_of d names us rest)
    ]
  ]

  pub length-seed_positions :
      (cfg : Config F) (o : Option (JointState F)) (vs : List F)
      → seed_positions cfg o ≡ some vs
      → length vs ≡ length cfg.home_joint_names
  unfolding seed_positions
  length-seed_positions cfg none vs h = ground arith
  length-seed_positions cfg (some msg) vs h =
      length-values_of (fill [] msg.name msg.position) cfg.home_joint_names vs h

  pub get_controller_mode-IsTrajectoryReady :
      (env : Env F) (cfg : Config F) (w : World F)
      → is_trajectory (get_controller_mode env cfg w).0 ≡ true
      → IsTrajectoryReady cfg (get_controller_mode env cfg w).1.trace
  unfolding get_controller_mode emit
  get_controller_mode-IsTrajectoryReady env cfg w h = ground arith

module _ {F : Type 0} ⦃fl : Floats F⦄ where
  pub switch_controllers-IsTrajectoryReady :
      (env : Env F) (cfg : Config F) (deactivate : List String) (w : World F)
      → (switch_controllers env cfg (cfg.trajectory_controller ∷ []) deactivate w).0 ≡ true
      → IsTrajectoryReady cfg
          (switch_controllers env cfg (cfg.trajectory_controller ∷ []) deactivate w).1.trace
  unfolding switch_controllers emit
  switch_controllers-IsTrajectoryReady env cfg deactivate w h = ground arith

  pub switch_controllers-IsServoReady :
      (env : Env F) (cfg : Config F) (deactivate : List String) (w : World F)
      → (switch_controllers env cfg (cfg.servo_controller ∷ []) deactivate w).0 ≡ true
      → IsServoReady cfg
          (switch_controllers env cfg (cfg.servo_controller ∷ []) deactivate w).1.trace
  unfolding switch_controllers emit
  switch_controllers-IsServoReady env cfg deactivate w h = ground arith

module _ {F : Type 0} (env : Env F) (cfg : Config F) where
  seed_rounds-IsServoReady :
      (positions : List F) (n : ℕ) (w : World F)
      → IsServoReady cfg w.trace
      → IsServoReady cfg (seed_rounds env positions n w).trace
  unfolding seed_rounds
  seed_rounds-IsServoReady positions zero w h = h
  seed_rounds-IsServoReady positions (suc n) w h =
      seed_rounds-IsServoReady positions n (spin env (emit (seed positions) w))
        (unfold spin pass emit in h)

  pub seed_if-IsServoReady :
      (positions : Option (List F)) (count : ℤ) (w : World F)
      → IsServoReady cfg w.trace
      → IsServoReady cfg (seed_if env cfg positions count w).trace
  unfolding seed_if publish_servo_seed
  seed_if-IsServoReady none count w h = h
  seed_if-IsServoReady (some positions) count w h =
      if_lem (λ v. IsServoReady cfg v.trace) cfg.seed_servo_on_switch
        (publish_servo_seed env positions count w) w
        (λ on. seed_rounds-IsServoReady positions (max (pos_part count) 1) w h) (λ off. h)

  pub reset_moveit_servo_status-IsServoReady :
      (w : World F)
      → IsServoReady cfg w.trace
      → IsServoReady cfg (reset_moveit_servo_status env cfg w).1.trace
  unfolding reset_moveit_servo_status spin pass emit
  reset_moveit_servo_status-IsServoReady w h = ground arith
