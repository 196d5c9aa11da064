-- ===== src/Servo/Home.antt =====
-- The poses that the servo node records, the configured home pose, and the drive to home.
use Prim.Native.String.{String}
use digital_twin_based_on_un.Common.{
  ℕ, suc, Bool, true, false, ◌&&◌, not, List, [], ◌∷◌, ◌==◌, Option, none, some, length,
  if◌then◌else◌,
}
use digital_twin_based_on_un.Common.Int.{sub_ℕ}
use digital_twin_based_on_un.Common.Floats.{Floats}
use digital_twin_based_on_un.Msgs.{PoseStamped, mode_cartesian_pose}
use digital_twin_based_on_un.Servo.{Config, Node, goal, Env, World, pass, emit}
use digital_twin_based_on_un.Servo.Commands.{spin, publish_command, zero_axes}
use digital_twin_based_on_un.Servo.Controllers.{
  is_trajectory, is_servo, get_controller_mode, to_trajectory, split_seconds,
  switch_to_servo_controller,
}

-- `if value` for a list.
abbrev pub is_empty {ℓ} : {A : Type ℓ} → List A → Bool
is_empty [] = true
is_empty (x ∷ xs) = false

-- `_double_array_parameter`, for a parameter that may be unset.
unfoldable pub double_array_parameter {ℓ} : {F : Type ℓ} → Option (List F) → List F
double_array_parameter none = []
double_array_parameter (some value) = value

module _ {F : Type 0} ⦃fl : Floats F⦄ where
  unfoldable pub quaternion_from_rpy : F → F → F → F × F × F × F
  quaternion_from_rpy roll pitch yaw =
      let cr = fl.cos (fl.mul roll fl.half) in
      let sr = fl.sin (fl.mul roll fl.half) in
      let cp = fl.cos (fl.mul pitch fl.half) in
      let sp = fl.sin (fl.mul pitch fl.half) in
      let cy = fl.cos (fl.mul yaw fl.half) in
      let sy = fl.sin (fl.mul yaw fl.half) in
      (
        fl.sub (fl.mul (fl.mul sr cp) cy) (fl.mul (fl.mul cr sp) sy),
        fl.add (fl.mul (fl.mul cr sp) cy) (fl.mul (fl.mul sr cp) sy),
        fl.sub (fl.mul (fl.mul cr cp) sy) (fl.mul (fl.mul sr sp) cy),
        fl.add (fl.mul (fl.mul cr cp) cy) (fl.mul (fl.mul sr sp) sy),
      )

  -- The parameter home_orientation_xyzw as a quaternion.
  unfoldable pub four_of : List F → Option (F × F × F × F)
  four_of (x ∷ y ∷ z ∷ w ∷ []) = some (x, y, z, w)
  four_of [] = none
  four_of (x ∷ []) = none
  four_of (x ∷ y ∷ []) = none
  four_of (x ∷ y ∷ z ∷ []) = none
  four_of (x ∷ y ∷ z ∷ w ∷ v ∷ vs) = none

  -- `_home_orientation_xyzw`, from home_rpy and home_orientation_xyzw.
  unfoldable pub home_orientation_xyzw : List F → Option (List F) → Option (F × F × F × F)
  home_orientation_xyzw [] xyzw = four_of (double_array_parameter xyzw)
  home_orientation_xyzw (roll ∷ pitch ∷ yaw ∷ []) xyzw = some (quaternion_from_rpy roll pitch yaw)
  home_orientation_xyzw (roll ∷ []) xyzw = none
  home_orientation_xyzw (roll ∷ pitch ∷ []) xyzw = none
  home_orientation_xyzw (roll ∷ pitch ∷ yaw ∷ v ∷ vs) xyzw = none

  -- `_make_home_pose`, from home_position, home_rpy and home_orientation_xyzw.
  unfoldable pub make_home_pose :
      String → List F → List F → Option (List F) → Option (PoseStamped F)
  make_home_pose frame_id (x ∷ y ∷ z ∷ []) rpy xyzw = elim (home_orientation_xyzw rpy xyzw) [
    | none ↦ none
    | some q ↦
        some (record { stamp = 0; frame_id = frame_id; position = (x, y, z); orientation = q })
  ]
  make_home_pose frame_id [] rpy xyzw = none
  make_home_pose frame_id (x ∷ []) rpy xyzw = none
  make_home_pose frame_id (x ∷ y ∷ []) rpy xyzw = none
  make_home_pose frame_id (x ∷ y ∷ z ∷ v ∷ vs) rpy xyzw = none

  -- `__init__`, from the three parameters that may be unset.
  unfoldable pub new_node : Config F → Option (List F) → Option (List F) → Option (List F) → Node F
  new_node cfg position rpy xyzw = record {
    sequence_id = 0;
    current_pose = none;
    current_pose_time = none;
    zero_pose = none;
    home_pose =
        make_home_pose cfg.frame_id (double_array_parameter position) (double_array_parameter rpy)
          xyzw;
    last_joint_state = none;
    held_keys = [];
    pending_actions = [];
  }

  -- The pose kept at `then`, unless it is too old at `now`.
  unfoldable pub if_fresh : Config F → ℕ → ℕ → PoseStamped F → Option (PoseStamped F)
  if_fresh cfg now kept_at pose =
      let age_s = fl.mul (fl.of_int (sub_ℕ now kept_at)) fl.nano in
      if fl.lt cfg.current_pose_timeout_s age_s then none else some pose

  unfoldable pub fresh_pose :
      Config F → ℕ → Option (PoseStamped F) → Option ℕ → Option (PoseStamped F)
  fresh_pose cfg now none kept_at = none
  fresh_pose cfg now (some pose) none = none
  fresh_pose cfg now (some pose) (some kept_at) = if_fresh cfg now kept_at pose

  -- `_fresh_current_pose`, which reads the clock.
  unfoldable pub fresh_current_pose : Env F → Config F → World F → Option (PoseStamped F)
  fresh_current_pose env cfg w =
      fresh_pose cfg (env w.moment).now w.node.current_pose w.node.current_pose_time

  -- `deepcopy(current)` into a field, which keeps its value when there is no fresh pose.
  abbrev pub or_else : Option (PoseStamped F) → Option (PoseStamped F) → Option (PoseStamped F)
  or_else none old = old
  or_else (some pose) old = some pose

  unfoldable pub record_current_as_home : Env F → Config F → World F → World F
  record_current_as_home env cfg w = record (pass w) {
    node = record w.node { home_pose = or_else (fresh_current_pose env cfg w) w.node.home_pose };
  }

  unfoldable pub record_current_as_zero : Env F → Config F → World F → World F
  record_current_as_zero env cfg w = record (pass w) {
    node = record w.node { zero_pose = or_else (fresh_current_pose env cfg w) w.node.zero_pose };
  }

  -- The part of `send_home_joint_trajectory` that makes the trajectory controller active:
  -- whether to go on, whether to restore the servo controller after it, and the world.
  unfoldable pub prepare_home : Env F → Config F → World F → Bool × Bool × World F
  prepare_home env cfg w =
      if cfg.auto_switch_for_home
      then (let (mode, v) = get_controller_mode env cfg w in
          let restore_servo = is_servo mode && cfg.return_to_servo_after_home in
          if is_trajectory mode
          then (true, restore_servo, v)
          else let (ok, u) = to_trajectory env cfg mode v in (ok, restore_servo, u))
      else (true, false, w)

  -- The goal: the wait for the server, the two spins for its answers, and the restored servo.
  unfoldable pub send_home_goal : Env F → Config F → Bool → World F → World F
  send_home_goal env cfg restore_servo w =
      if (env w.moment).ready
      then (let accepted = (env (suc w.moment)).accepted in
          let sent =
            emit
              (goal cfg.home_joint_names cfg.home_joint_positions
                (split_seconds cfg.home_duration_s) accepted)
              (spin env (pass w)) in
          let done = spin env sent in
          if accepted
          then (if restore_servo then (switch_to_servo_controller env cfg done).1 else done)
          else sent)
      else pass w

  unfoldable pub send_home_joint_trajectory : Env F → Config F → World F → World F
  send_home_joint_trajectory env cfg w =
      if length cfg.home_joint_names == length cfg.home_joint_positions
      then (let (go_on, restore_servo, v) = prepare_home env cfg w in
          if go_on then send_home_goal env cfg restore_servo v else v)
      else w

  -- The Cartesian branch of `publish_home_pose`.
  unfoldable pub publish_kept_pose : Env F → Config F → Option (PoseStamped F) → World F → World F
  publish_kept_pose env cfg none w = w
  publish_kept_pose env cfg (some pose) w =
      publish_command env cfg zero_axes zero_axes mode_cartesian_pose (some pose) w

  unfoldable pub publish_home_pose : Env F → Config F → World F → World F
  publish_home_pose env cfg w =
      if not (is_empty cfg.home_joint_names) && not (is_empty cfg.home_joint_positions)
      then send_home_joint_trajectory env cfg w
      else publish_kept_pose env cfg w.node.home_pose w
