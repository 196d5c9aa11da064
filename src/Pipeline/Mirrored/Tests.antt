-- ===== src/Pipeline/Mirrored/Tests.antt =====
-- The chain from the servo node to the observer in a concrete world.
use Prim.Native.String.{String}
use digital_twin_based_on_un.Common.{◌+◌, ◌≡◌, refl, false, [], ◌∷◌, map, none, All, length}
use digital_twin_based_on_un.Common.Int.{ℤ}
use digital_twin_based_on_un.Common.Samples.{whole_floats}
use digital_twin_based_on_un.Jog.{codes}
use digital_twin_based_on_un.Servo.{keys, Env, World, pass, emit}
use digital_twin_based_on_un.Servo.Commands.{
  deliver, handle, on_keys, spin, base_command, twist_command, command_message, publish_command,
  publish_tick,
}
use digital_twin_based_on_un.Servo.Home.{new_node}
use digital_twin_based_on_un.Servo.Loop.{
  publish_idle, dispatch_action, run_next, process_pending_actions, loop_round, spin_unity_keyboard,
}
use digital_twin_based_on_un.Bridges.Mirrors.{command_callback}
use digital_twin_based_on_un.Observer.{default_topics, Observed, observed_command, observe}
use digital_twin_based_on_un.Observer.ReadOnly.{of_commands, output, published}
use digital_twin_based_on_un.Pipeline.Samples.{config}
use digital_twin_based_on_un.Pipeline.Mirrored.{arrivals, IsShown, observe-spin_unity_keyboard}

-- The key w is held, and each spin brings the action space.
abbrev stopping : Env ℤ
stopping k = record {
  now = 100 + k;
  ready = false;
  delivered = keys (codes "w") "space" ∷ [];
  controllers = none;
  switch_ok = none;
  success = none;
  reset_done = false;
  accepted = false;
}

abbrev done : World ℤ
done =
    (spin_unity_keyboard 3 4 stopping config
      (record { node = new_node config none none none; moment = 0; trace = [] }, 100)).0

observe-spin_unity_keyboard_example :
    let shown =
      published (output of_commands) (
        observe default_topics (arrivals default_topics.command_topic (λ k. 500 + k) done.trace)) in
    All (IsShown config) shown × (length shown ≡ done.node.sequence_id)
observe-spin_unity_keyboard_example =
    observe-spin_unity_keyboard stopping config default_topics (λ k. 500 + k) none none none 3 4 100

abbrev label : Observed ℤ → String
label (observed_command m) = m.control_mode_label
label m = "not a command"

-- The twist of the first tick comes between the stops.
shown_labels :
    map label
      (observe default_topics (arrivals default_topics.command_topic (λ k. 500 + k) done.trace))
    ≡ "IDLE" ∷ "CARTESIAN_TWIST" ∷ "IDLE" ∷ "IDLE" ∷ []
unfolding spin_unity_keyboard loop_round process_pending_actions run_next dispatch_action
    publish_idle publish_tick publish_command command_message twist_command base_command deliver
    handle on_keys spin pass emit new_node observe command_callback
shown_labels = refl
