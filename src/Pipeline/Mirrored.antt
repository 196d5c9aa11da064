-- ===== src/Pipeline/Mirrored.antt =====
-- The chain from the servo node to the observer, over the topic of the commands.
mod Tests
use Prim.Native.String.{String}
use text.Mathlib.Text.{◌==◌ as str_eq}
use text.Mathlib.TextEquality.{eq_iff}
use digital_twin_based_on_un.Common.{
  ℕ, ◌+◌, ◌≡◌, refl, ◌∙◌, ap, ◌⊎◌, inl, inr, false, List, [], ◌∷◌, ◌++◌, Option, All, length,
  length-append, All-append, zero, if◌then◌else◌, list_laws, arith,
}
use digital_twin_based_on_un.Common.Floats.{Floats}
use digital_twin_based_on_un.Msgs.{TeleopCommand, mode_joint_velocity}
use digital_twin_based_on_un.Servo.{
  Config, Event, command, seed, listed, switched, stopped, started, reset, goal, Env, World,
}
use digital_twin_based_on_un.Servo.Home.{new_node}
use digital_twin_based_on_un.Servo.Loop.{spin_unity_keyboard}
use digital_twin_based_on_un.Servo.Closed.{IsOwnMode}
use digital_twin_based_on_un.Servo.Numbering.{
  HasNoJoints, IsNumbered, spin_unity_keyboard-IsNumbered,
}
use digital_twin_based_on_un.Bridges.Mirrors.{command_callback}
use digital_twin_based_on_un.Observer.{
  Topics, Message, teleop_command, Observed, observed_command, observed_status,
  observed_joint_velocity, observed_joint_position, observed_cartesian_pose, observed_twist,
  observe,
}
use digital_twin_based_on_un.Observer.ReadOnly.{
  of_commands, output, published, mirrored, observe_lem,
}

module _ {F : Type 0} where
  -- The commands of a trace as they arrive at an observer whose clock reads `clock k` when the
  -- command with the number k comes in, oldest first.
  abbrev pub arrivals : String → (ℕ → ℕ) → List (Event F) → List (ℕ × String × Message F)
  arrivals topic clock [] = []
  arrivals topic clock (command msg ∷ es) =
      arrivals topic clock es ++ (clock msg.sequence_id, topic, teleop_command msg) ∷ []
  arrivals topic clock (seed positions ∷ es) = arrivals topic clock es
  arrivals topic clock (listed controllers ∷ es) = arrivals topic clock es
  arrivals topic clock (switched activate deactivate timeout ok ∷ es) = arrivals topic clock es
  arrivals topic clock (stopped success ∷ es) = arrivals topic clock es
  arrivals topic clock (started success ∷ es) = arrivals topic clock es
  arrivals topic clock (reset done ∷ es) = arrivals topic clock es
  arrivals topic clock (goal names positions span accepted ∷ es) = arrivals topic clock es

  -- What Unity sees of a command of the servo node: one of three modes, by its name, the enable
  -- flag of the node, no emergency stop and no joints.
  abbrev pub IsShown : Config F → Observed F → Type 0
  IsShown cfg (observed_command m) =
      ((m.control_mode_label ≡ "IDLE")
        ⊎ ((m.control_mode_label ≡ "CARTESIAN_POSE") ⊎ (m.control_mode_label ≡ "CARTESIAN_TWIST")))
      × (m.enable ≡ cfg.enable)
      × (m.emergency_stop ≡ false)
      × (m.joint_names ≡ [])
      × (m.joint_values ≡ [])
  IsShown cfg (observed_status m) = ⊥
  IsShown cfg (observed_joint_velocity m) = ⊥
  IsShown cfg (observed_joint_position m) = ⊥
  IsShown cfg (observed_cartesian_pose m) = ⊥
  IsShown cfg (observed_twist m) = ⊥

  command_callback-IsShown :
      (cfg : Config F) (now : ℕ) (msg : TeleopCommand F)
      → IsOwnMode msg.control_mode
      → HasNoJoints msg
      → msg.enable ≡ cfg.enable
      → msg.emergency_stop ≡ false
      → IsShown cfg (observed_command (command_callback now msg))
  unfolding command_callback
  command_callback-IsShown cfg now msg (inl idle) (n, p, v) en calm =
      (inl (rw idle refl), en, calm, n, rw (idle, p) refl)
  command_callback-IsShown cfg now msg (inr (inl pose)) (n, p, v) en calm =
      (inr (inl (rw pose refl)), en, calm, n, rw (pose, p) refl)
  command_callback-IsShown cfg now msg (inr (inr twist)) (n, p, v) en calm =
      (inr (inr (rw twist refl)), en, calm, n, rw (twist, p) refl)

  mirrored-append :
      (topics : Topics) (ms others : List (ℕ × String × Message F))
      → mirrored topics of_commands (ms ++ others)
        ≡ mirrored topics of_commands ms ++ mirrored topics of_commands others
  mirrored-append topics [] others = refl
  mirrored-append topics ((now, topic, m) ∷ ms) others =
      simp (mirrored-append topics ms others, list_laws) refl

  -- A command on its topic.
  mirrored-command :
      (topics : Topics) (now : ℕ) (msg : TeleopCommand F)
      → mirrored topics of_commands ((now, topics.command_topic, teleop_command msg) ∷ [])
        ≡ observed_command (command_callback now msg) ∷ []
  mirrored-command topics now msg =
      rw ((eq_iff topics.command_topic topics.command_topic).1 refl) refl

  mirrored-arrivals :
      (cfg : Config F) (topics : Topics) (clock : ℕ → ℕ) (n : ℕ) (es : List (Event F))
      → IsNumbered cfg n es
      → All (IsShown cfg) (mirrored topics of_commands (arrivals topics.command_topic clock es))
        × (length (mirrored topics of_commands (arrivals topics.command_topic clock es)) ≡ n)
  mirrored-arrivals cfg topics clock n [] h = (tt, omega arith)
  mirrored-arrivals cfg topics clock n (command msg ∷ es) (id, en, name, calm, own, none, h) =
      let earlier = arrivals topics.command_topic clock es in
      let now : ℕ = clock msg.sequence_id in
      let (shown, how_many) = mirrored-arrivals cfg topics clock msg.sequence_id es h in
      rw
        (
          mirrored-append topics earlier ((now, topics.command_topic, teleop_command msg) ∷ []),
          mirrored-command topics now msg,
        )
        (
          All-append (IsShown cfg) (mirrored topics of_commands earlier) _ shown
              (command_callback-IsShown cfg now msg own none en calm, tt),
          omega (
            arith,
            length-append (mirrored topics of_commands earlier)
                (observed_command (command_callback now msg) ∷ []),
            how_many,
            id,
          ),
        )
  mirrored-arrivals cfg topics clock n (e ∷ es) h = mirrored-arrivals cfg topics clock n es h

module _ {F : Type 0} ⦃fl : Floats F⦄ where
  -- After any number of rounds of the loop of a new servo node, whatever the environment does and
  -- whatever topics the observer is configured with: when the commands published reach an observer
  -- of their topic, it publishes as many messages on /unity/cmd_observed/command as the node has
  -- numbered, each with the label IDLE, CARTESIAN_POSE or CARTESIAN_TWIST, the enable flag of the
  -- node, without joints, and none an emergency stop.
  pub observe-spin_unity_keyboard :
      (env : Env F) (cfg : Config F) (topics : Topics) (clock : ℕ → ℕ)
      (home rpy xyzw : Option (List F)) (n fuel next_publish : ℕ)
      → let start : World F = record {
        node = new_node cfg home rpy xyzw;
        moment = 0;
        trace = [];
      } in
        let w = (spin_unity_keyboard n fuel env cfg (start, next_publish)).0 in
        let shown =
          published
            (output of_commands)
            (observe topics (arrivals topics.command_topic clock w.trace)) in
        All (IsShown cfg) shown × (length shown ≡ w.node.sequence_id)
  observe-spin_unity_keyboard env cfg topics clock home rpy xyzw n fuel next_publish =
      let start : World F = record { node = new_node cfg home rpy xyzw; moment = 0; trace = [] } in
      let w : World F = (spin_unity_keyboard n fuel env cfg (start, next_publish)).0 in
      rw (observe_lem topics of_commands (arrivals topics.command_topic clock w.trace)) (
        mirrored-arrivals cfg topics clock w.node.sequence_id w.trace
          (spin_unity_keyboard-IsNumbered cfg env home rpy xyzw n fuel next_publish))
