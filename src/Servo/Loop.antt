-- ===== src/Servo/Loop.antt =====
-- The actions of the servo node and its main loop.
use Prim.Native.String.{String}
use text.Mathlib.Text.{◌==◌ as str_eq}
use digital_twin_based_on_un.Common.{ℕ, zero, suc, ◌+◌, List, [], ◌∷◌, none, leb, if◌then◌else◌}
use digital_twin_based_on_un.Common.Floats.{Floats}
use digital_twin_based_on_un.Msgs.{mode_idle}
use digital_twin_based_on_un.Jog.{
  action_stop, action_home, action_toggle_controller, action_record_home, action_record_zero,
  action_stop_and_clear,
}
use digital_twin_based_on_un.Servo.{Config, Env, World, pass}
use digital_twin_based_on_un.Servo.Commands.{spin, publish_command, publish_tick, zero_axes}
use digital_twin_based_on_un.Servo.Controllers.{toggle_motion_controller}
use digital_twin_based_on_un.Servo.Home.{
  publish_home_pose, record_current_as_home, record_current_as_zero,
}

module _ {F : Type 0} ⦃fl : Floats F⦄ where
  -- `publish_command(mode=IDLE)`
  unfoldable pub publish_idle : Env F → Config F → World F → World F
  publish_idle env cfg w = publish_command env cfg zero_axes zero_axes mode_idle none w

  unfoldable pub stop_and_clear : Env F → Config F → World F → World F
  stop_and_clear env cfg w =
      publish_idle env cfg (record w { node = record w.node { held_keys = [] } })

  unfoldable pub dispatch_action : Env F → Config F → String → World F → World F
  dispatch_action env cfg action w =
      if str_eq action action_stop
      then publish_idle env cfg w
      else if str_eq action action_home
      then publish_home_pose env cfg w
      else if str_eq action action_toggle_controller
      then toggle_motion_controller env cfg w
      else if str_eq action action_record_home
      then record_current_as_home env cfg w
      else if str_eq action action_record_zero
      then record_current_as_zero env cfg w
      else if str_eq action action_stop_and_clear
      then stop_and_clear env cfg w
      else w

  -- One round of the loop of `process_pending_actions`, on a queue; none on an empty one.
  unfoldable pub run_next : Env F → Config F → List String → World F → World F
  run_next env cfg [] w = w
  run_next env cfg (action ∷ rest) w =
      dispatch_action env cfg action (record w { node = record w.node { pending_actions = rest } })

  -- `process_pending_actions` for at most `fuel` actions.
  unfoldable pub process_pending_actions : ℕ → Env F → Config F → World F → World F
  process_pending_actions zero env cfg w = w
  process_pending_actions (suc fuel) env cfg w =
      process_pending_actions fuel env cfg (run_next env cfg w.node.pending_actions w)

  -- One round of `spin_unity_keyboard`, with the time of the next publication.
  unfoldable pub loop_round : ℕ → Env F → Config F → World F × ℕ → World F × ℕ
  loop_round fuel env cfg (w, next_publish) =
      let v = process_pending_actions fuel env cfg (spin env w) in
      let now = (env v.moment).now in
      if leb next_publish now
      then (publish_tick env cfg (pass v), now + cfg.period)
      else (pass v, next_publish)

  -- `n` rounds.
  unfoldable pub spin_unity_keyboard : ℕ → ℕ → Env F → Config F → World F × ℕ → World F × ℕ
  spin_unity_keyboard zero fuel env cfg s = s
  spin_unity_keyboard (suc n) fuel env cfg s =
      spin_unity_keyboard n fuel env cfg (loop_round fuel env cfg s)

  -- The handler of KeyboardInterrupt in `main`, which ends the loop.
  unfoldable pub on_interrupt : Env F → Config F → World F → World F
  on_interrupt env cfg w = publish_idle env cfg w
