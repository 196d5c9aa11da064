-- ===== src/Servo/Numbering.antt =====
-- The commands that the servo node publishes, over any run of its loop.
use digital_twin_based_on_un.Common.{
  ℕ, ◌+◌, ◌≡◌, refl, false, List, [], ◌∷◌, Option, none, some, arith,
}
use digital_twin_based_on_un.Common.Floats.{Floats}
use digital_twin_based_on_un.Msgs.{Vector3, PoseStamped, TeleopCommand}
use digital_twin_based_on_un.Servo.{
  Config, Node, Callback, keys, observation, joint_state, Event, command, seed, listed, switched,
  stopped, started, reset, goal, Env, World, pass, emit,
}
use digital_twin_based_on_un.Servo.Commands.{
  on_keys, on_observation, on_joint_state, handle, deliver, spin, command_message, pose_command,
  twist_command, base_command, publish_command,
}
use digital_twin_based_on_un.Servo.Home.{new_node}
use digital_twin_based_on_un.Servo.Loop.{spin_unity_keyboard}
use digital_twin_based_on_un.Servo.Closed.{IsOwnMode, Closed}
use digital_twin_based_on_un.Servo.Dispatch.{spin_unity_keyboard-Closed}

module _ {F : Type 0} where
  abbrev pub HasNoJoints : TeleopCommand F → Type 0
  HasNoJoints msg =
      (msg.joint_command.name ≡ [])
      × (msg.joint_command.position ≡ [])
      × (msg.joint_command.velocity ≡ [])

  -- The commands of the trace carry the numbers n - 1, n - 2, …, 0 and the configuration of the
  -- node, a mode of their own, no joints, and none is an emergency stop.
  abbrev pub IsNumbered : Config F → ℕ → List (Event F) → Type 0
  IsNumbered cfg n [] = n ≡ 0
  IsNumbered cfg n (command msg ∷ es) =
      (msg.sequence_id + 1 ≡ n)
      × (msg.enable ≡ cfg.enable)
      × (msg.robot_name ≡ cfg.robot_name)
      × (msg.emergency_stop ≡ false)
      × IsOwnMode msg.control_mode
      × HasNoJoints msg
      × IsNumbered cfg msg.sequence_id es
  IsNumbered cfg n (seed positions ∷ es) = IsNumbered cfg n es
  IsNumbered cfg n (listed controllers ∷ es) = IsNumbered cfg n es
  IsNumbered cfg n (switched activate deactivate timeout ok ∷ es) = IsNumbered cfg n es
  IsNumbered cfg n (stopped success ∷ es) = IsNumbered cfg n es
  IsNumbered cfg n (started success ∷ es) = IsNumbered cfg n es
  IsNumbered cfg n (reset done ∷ es) = IsNumbered cfg n es
  IsNumbered cfg n (goal names positions span accepted ∷ es) = IsNumbered cfg n es

  pub deliver-sequence_id :
      (cs : List (Callback F)) (n : Node F) → (deliver cs n).sequence_id ≡ n.sequence_id
  unfolding deliver handle on_keys on_observation on_joint_state
  deliver-sequence_id [] n = refl
  deliver-sequence_id (keys held action ∷ cs) n =
      ground (arith, deliver-sequence_id cs (on_keys held action n))
  deliver-sequence_id (observation now msg ∷ cs) n =
      ground (arith, deliver-sequence_id cs (on_observation now msg n))
  deliver-sequence_id (joint_state msg ∷ cs) n = deliver-sequence_id cs (on_joint_state msg n)

module _ {F : Type 0} ⦃fl : Floats F⦄ (cfg : Config F) where
  -- What a command carries whatever its target.
  record IsFrom (msg : TeleopCommand F) (id : ℕ) : Type 0 where
    numbered : msg.sequence_id ≡ id
    enabled : msg.enable ≡ cfg.enable
    named : msg.robot_name ≡ cfg.robot_name
    calm : msg.emergency_stop ≡ false
    own : IsOwnMode msg.control_mode
    jointless : HasNoJoints msg

  command_message-IsFrom :
      (now id : ℕ) (linear angular : Vector3 F) (mode : ℕ) (pose : Option (PoseStamped F))
      → IsOwnMode mode
      → IsFrom (command_message cfg now id linear angular mode pose) id
  unfolding command_message pose_command twist_command base_command
  command_message-IsFrom now id linear angular mode none own = ground arith
  command_message-IsFrom now id linear angular mode (some pose) own = ground arith

  module _ (env : Env F) where
    IsNumbered-Closed : Closed env cfg (λ w. IsNumbered cfg w.node.sequence_id w.trace)
    unfolding pass emit spin publish_command
    IsNumbered-Closed = record {
      passes = λ w h. h;
      spins = λ w h. rw (deliver-sequence_id (env w.moment).delivered w.node) h;
      lists = λ controllers w h. h;
      switches = λ activate deactivate timeout ok w h. h;
      stops = λ success w h. h;
      resets = λ done w h. h;
      starts = λ success w ready h. h;
      seeds = λ positions w same h. h;
      goals = λ span accepted w same ready h. h;
      commands = λ linear angular mode pose w own h. ground (
        arith,
        command_message-IsFrom (env w.moment).now w.node.sequence_id linear angular mode pose own,
      );
      keeps_home = λ pose w h. h;
      keeps_zero = λ pose w h. h;
      clears = λ w h. h;
    }

    -- After any number of rounds of the loop of a new node, whatever the environment does, the
    -- commands published carry the numbers 0, 1, 2, …, in order and without a gap, up to the one
    -- before the counter, with the enable flag and the robot name of the configuration, in the
    -- mode IDLE, CARTESIAN_POSE or CARTESIAN_TWIST, without joints, and none is an emergency stop.
    pub spin_unity_keyboard-IsNumbered :
        (home rpy xyzw : Option (List F)) (n fuel next_publish : ℕ)
        → let start : World F = record {
          node = new_node cfg home rpy xyzw;
          moment = 0;
          trace = [];
        } in
          let w = (spin_unity_keyboard n fuel env cfg (start, next_publish)).0 in
          IsNumbered cfg w.node.sequence_id w.trace
    spin_unity_keyboard-IsNumbered home rpy xyzw n fuel next_publish =
        let start : World F = record {
          node = new_node cfg home rpy xyzw;
          moment = 0;
          trace = [];
        } in
        spin_unity_keyboard-Closed env cfg (λ w. IsNumbered cfg w.node.sequence_id w.trace)
          IsNumbered-Closed (λ rest w h. h) n fuel (start, next_publish) (unfold new_node in refl)
