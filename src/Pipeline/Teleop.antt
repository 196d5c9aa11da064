-- ===== src/Pipeline/Teleop.antt =====
-- The teleoperation chain: what the servo node publishes, as the display conditioner takes it.
mod Tests
use Prim.Native.String.{String}
use digital_twin_based_on_un.Common.{false, ◌⊎◌, inl, inr, none, some}
use digital_twin_based_on_un.Common.Floats.{Floats}
use digital_twin_based_on_un.Msgs.{mode_cartesian_twist}
use digital_twin_based_on_un.Jog.{action_stop, action_stop_and_clear, held_keys_to_twist}
use digital_twin_based_on_un.Conditioner.{Conditioner, hard_stop, on_command, force_stop_display}
use digital_twin_based_on_un.Conditioner.Traces.{command as receives}
use digital_twin_based_on_un.Bridges.Mirrors.{command_callback}
use digital_twin_based_on_un.Servo.{Config, command, Env, World}
use digital_twin_based_on_un.Servo.Commands.{publish_tick}
use digital_twin_based_on_un.Servo.Loop.{dispatch_action, on_interrupt}

-- What makes the servo node stop: the action space, the action x, or a KeyboardInterrupt.
pub data StopOrder : Type 0 where
  key_space key_x keyboard_interrupt : StopOrder

module _ {F : Type 0} ⦃fl : Floats F⦄ where
  abbrev pub carry_out : StopOrder → Env F → Config F → World F → World F
  carry_out key_space env cfg w = dispatch_action env cfg action_stop w
  carry_out key_x env cfg w = dispatch_action env cfg action_stop_and_clear w
  carry_out keyboard_interrupt env cfg w = on_interrupt env cfg w
