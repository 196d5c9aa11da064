-- ===== src/Servo/Controllers.antt =====
-- The controller and servo services that the servo node calls, and the switch between the two
-- motion controllers.
use Prim.Native.String.{String}
use text.Mathlib.Text.{◌==◌ as str_eq}
use digital_twin_based_on_un.Common.{
  ℕ, zero, suc, Bool, true, false, List, [], ◌∷◌, Option, none, some, is_some, max, if◌then◌else◌,
}
use digital_twin_based_on_un.Common.Int.{ℤ, pos, pos_part}
use digital_twin_based_on_un.Common.Floats.{Floats}
use digital_twin_based_on_un.Msgs.{JointState}
use digital_twin_based_on_un.Bridges.Joints.{lookup, insert, fill}
use digital_twin_based_on_un.Servo.{
  ControllerMode, unknown, trajectory, servo, Config, Event, seed, listed, switched, stopped,
  started, reset, Env, World, pass, emit,
}
use digital_twin_based_on_un.Servo.Commands.{spin}

abbrev pub is_trajectory : ControllerMode → Bool
is_trajectory trajectory = true
is_trajectory servo = false
is_trajectory unknown = false

abbrev pub is_servo : ControllerMode → Bool
is_servo servo = true
is_servo trajectory = false
is_servo unknown = false

-- The dict from names to states; the last state of a name counts.
abbrev pub to_dict {ℓ} : {V : Type ℓ} → List (String × V) → List (String × V) → List (String × V)
to_dict d [] = d
to_dict d ((k, v) ∷ kvs) = to_dict (insert k v d) kvs

-- `states.get(name) == "active"`
abbrev pub is_active : String → List (String × String) → Bool
is_active name states = elim (lookup name states) [
  | none ↦ false
  | some state ↦ str_eq state "active"
]

-- `response is not None and response.success`
abbrev pub answered : Option Bool → Bool
answered none = false
answered (some b) = b

module _ {F : Type 0} where
  -- The mode that the answer of list_controllers shows.
  unfoldable pub mode_of : Config F → Option (List (String × String)) → ControllerMode
  mode_of cfg none = unknown
  mode_of cfg (some controllers) =
      let states = to_dict [] controllers in
      if is_active cfg.trajectory_controller states
      then trajectory
      else (if is_active cfg.servo_controller states then servo else unknown)

  unfoldable pub get_controller_mode : Env F → Config F → World F → ControllerMode × World F
  get_controller_mode env cfg w =
      if (env w.moment).ready
      then (let controllers = (env (suc w.moment)).controllers in
          (mode_of cfg controllers, emit (listed controllers) (spin env (pass w))))
      else (unknown, pass w)

  -- `call_trigger_service`; `tag` makes the event of the service called.
  unfoldable pub call_trigger_service : Env F → (Option Bool → Event F) → World F → Bool × World F
  call_trigger_service env tag w =
      if (env w.moment).ready
      then (let success = (env (suc w.moment)).success in
          (answered success, emit (tag success) (spin env (pass w))))
      else (false, pass w)

  unfoldable pub stop_moveit_servo : Env F → Config F → World F → Bool × World F
  stop_moveit_servo env cfg w =
      if cfg.manage_servo_node_on_switch
      then call_trigger_service env (λ success. stopped success) w
      else (true, w)

  unfoldable pub start_moveit_servo : Env F → Config F → World F → Bool × World F
  start_moveit_servo env cfg w =
      if cfg.manage_servo_node_on_switch
      then call_trigger_service env (λ success. started success) w
      else (true, w)

  unfoldable pub reset_moveit_servo_status : Env F → Config F → World F → Bool × World F
  reset_moveit_servo_status env cfg w =
      if cfg.manage_servo_node_on_switch
      then if (env w.moment).ready
        then (let done = (env (suc w.moment)).reset_done in
            (done, emit (reset done) (spin env (pass w))))
        else (false, pass w)
      else (true, w)

  -- At most `n` spins, until a joint state is there.
  unfoldable pub await_joint_state : Env F → ℕ → World F → World F
  await_joint_state env zero w = w
  await_joint_state env (suc n) w =
      let v = spin env w in
      let rest = await_joint_state env n v in if is_some v.node.last_joint_state then v else rest

  -- The values of `names` in `d`, none when one is missing.
  abbrev pub values_of : List (String × F) → List String → Option (List F)
  values_of d [] = some []
  values_of d (name ∷ names) = elim (lookup name d) [
    | none ↦ none
    | some v ↦ elim (values_of d names) [ none ↦ none | some vs ↦ some (v ∷ vs) ]
  ]

  -- The positions that the last joint state gives for the configured joints.
  unfoldable pub seed_positions : Config F → Option (JointState F) → Option (List F)
  seed_positions cfg none = none
  seed_positions cfg (some msg) = values_of (fill [] msg.name msg.position) cfg.home_joint_names

  unfoldable pub current_joint_positions_for_servo :
      Env F → Config F → World F → Option (List F) × World F
  current_joint_positions_for_servo env cfg w =
      let v = await_joint_state env 5 w in (seed_positions cfg v.node.last_joint_state, v)

  -- `n` rounds of the loop of `publish_servo_seed`.
  unfoldable pub seed_rounds : Env F → List F → ℕ → World F → World F
  seed_rounds env positions zero w = w
  seed_rounds env positions (suc n) w =
      seed_rounds env positions n (spin env (emit (seed positions) w))

  -- `publish_servo_seed` with its count, the argument or the configured one.
  unfoldable pub publish_servo_seed : Env F → List F → ℤ → World F → World F
  publish_servo_seed env positions count w = seed_rounds env positions (max (pos_part count) 1) w

  -- `if self.seed_servo_on_switch and seed_positions is not None`
  unfoldable pub seed_if : Env F → Config F → Option (List F) → ℤ → World F → World F
  seed_if env cfg none count w = w
  seed_if env cfg (some positions) count w =
      if cfg.seed_servo_on_switch then publish_servo_seed env positions count w else w

module _ {F : Type 0} ⦃fl : Floats F⦄ where
  -- A span of seconds as whole seconds and nanoseconds.
  abbrev pub split_seconds : F → ℤ × ℤ
  split_seconds s =
      (fl.truncate s, fl.truncate (fl.mul (fl.sub s (fl.of_int (fl.truncate s))) fl.giga))

  unfoldable pub switch_controllers :
      Env F → Config F → List String → List String → World F → Bool × World F
  switch_controllers env cfg activate deactivate w =
      if (env w.moment).ready
      then (let ok = (env (suc w.moment)).switch_ok in
          (
            answered ok,
            emit (switched activate deactivate (split_seconds cfg.switch_controller_timeout_s) ok)
                (spin env (pass w)),
          ))
      else (false, pass w)

  -- The switch to the trajectory controller of `toggle_motion_controller` and of the home goal.
  unfoldable pub to_trajectory : Env F → Config F → ControllerMode → World F → Bool × World F
  to_trajectory env cfg mode w =
      switch_controllers env cfg (cfg.trajectory_controller ∷ [])
        (if is_servo mode then cfg.servo_controller ∷ [] else []) (stop_moveit_servo env cfg w).1

  -- `switch_to_servo_controller` up to the answer of the switch: its answer and the seed.
  unfoldable pub request_servo : Env F → Config F → World F → Bool × Option (List F) × World F
  request_servo env cfg w =
      let (mode, w₁) = get_controller_mode env cfg w in
      let w₂ = (stop_moveit_servo env cfg w₁).1 in
      let (positions, w₃) = current_joint_positions_for_servo env cfg w₂ in
      let w₄ = seed_if env cfg positions (pos 1) w₃ in
      let (ok, w₅) =
        switch_controllers env cfg (cfg.servo_controller ∷ [])
          (if is_trajectory mode then cfg.trajectory_controller ∷ [] else []) w₄ in
      (ok, positions, w₅)

  -- The rest of it, after a successful switch.
  unfoldable pub finish_servo : Env F → Config F → Option (List F) → World F → World F
  finish_servo env cfg positions w =
      let w₁ = seed_if env cfg positions cfg.servo_seed_publish_count w in
      let w₂ = (reset_moveit_servo_status env cfg w₁).1 in (start_moveit_servo env cfg w₂).1

  unfoldable pub switch_to_servo_controller : Env F → Config F → World F → Bool × World F
  switch_to_servo_controller env cfg w =
      let (ok, positions, v) = request_servo env cfg w in
      if ok then (true, finish_servo env cfg positions v) else (false, v)

  unfoldable pub toggle_motion_controller : Env F → Config F → World F → World F
  toggle_motion_controller env cfg w =
      let (mode, v) = get_controller_mode env cfg w in
      if is_trajectory mode
      then (switch_to_servo_controller env cfg v).1
      else (to_trajectory env cfg mode v).1
