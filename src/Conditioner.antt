-- ===== src/Conditioner.antt =====
-- The display conditioner node: digital_twin_on_unity_and_ros2/digital_twin_on_unity_and_ros2/
-- command_bridges/twist_display_conditioner_ros2unity.py under the repository's src/.
-- A handler takes its message and the clock readings that it makes, in order, and returns the new
-- node and what it published on the display topic. The log lines are left out.
pub mod Traces
pub mod Invariant
pub mod Shown
pub mod Stops
pub mod Reference
mod Tests
use Prim.Native.String.{String}
use text.Mathlib.Text.{◌==◌ as str_eq}
use digital_twin_based_on_un.Common.{
  ℕ, Bool, true, false, not, ◌||◌, ◌==◌, List, [], ◌∷◌, Option, none, some, if◌then◌else◌,
}
use digital_twin_based_on_un.Common.Floats.{Floats, fl_zero, seconds}
use digital_twin_based_on_un.Msgs.{
  Vector3, TwistStamped, TeleopCommand, TeleopStatus, mode_cartesian_twist,
}
use digital_twin_based_on_un.Display.{
  DisplayTwistState, DisplayAction, publish, stop, new, observe_nonzero, force_stop, tick,
}

pub record Conditioner (F : Type 0) : Type 0 where
  pub linear_zero_epsilon : F
  pub angular_zero_epsilon : F
  pub state : DisplayTwistState F
  pub last_nonzero : Option (TwistStamped F)

-- A node after a handler, and the messages that the handler published.
abbrev pub Handled : Type 0 → Type 0
Handled F = Conditioner F × List (TwistStamped F)

module _ {F : Type 0} ⦃fl : Floats F⦄ where
  -- `__init__`, from the four parameters that the node keeps.
  unfoldable pub init : F → F → F → F → Conditioner F
  init linear_eps angular_eps initial_hold_s active_timeout_s = record {
    linear_zero_epsilon = fl.abs linear_eps;
    angular_zero_epsilon = fl.abs angular_eps;
    state = new initial_hold_s active_timeout_s;
    last_nonzero = none;
  }

  unfoldable pub norm : Vector3 F → F
  norm (x, y, z) = fl.sqrt (fl.add (fl.add (fl.pow x 2) (fl.pow y 2)) (fl.pow z 2))

  unfoldable pub is_nonzero : Conditioner F → TwistStamped F → Bool
  is_nonzero c msg =
      fl.lt c.linear_zero_epsilon (norm msg.linear)
      || fl.lt c.angular_zero_epsilon (norm msg.angular)

  abbrev pub zero_vector : Vector3 F
  zero_vector = (fl_zero, fl_zero, fl_zero)

  -- The frame of a zero message: the one asked for, else that of the command last displayed.
  unfoldable pub zero_frame : Option (TwistStamped F) → String → String
  zero_frame none frame_id = frame_id
  zero_frame (some m) frame_id = if str_eq frame_id "" then m.frame_id else frame_id

  -- `_publish_zero`: the message that it sends.
  unfoldable pub zero_message : Conditioner F → ℕ → String → TwistStamped F
  unfolding zero_frame
  zero_message c now frame_id = record {
    stamp = now;
    frame_id = zero_frame c.last_nonzero frame_id;
    linear = zero_vector;
    angular = zero_vector;
  }

  -- `_force_stop`
  unfoldable pub force_stop_display : Conditioner F → ℕ → String → Handled F
  force_stop_display c now frame_id =
      let (state, was_displaying) = force_stop c.state in
      (
        record c { state = state; last_nonzero = none },
        (if was_displaying then zero_message c now frame_id ∷ [] else []),
      )

  unfoldable pub on_twist : Conditioner F → ℕ → TwistStamped F → Handled F
  on_twist c now msg =
      if not (is_nonzero c msg)
      then (c, [])
      else (record c { last_nonzero = some msg; state = observe_nonzero c.state (seconds now) }, [])

  -- `hard_stop` as `on_command` computes it.
  unfoldable pub hard_stop : Conditioner F → TeleopCommand F → Bool
  hard_stop c msg =
      let stopped =
        msg.emergency_stop || not msg.enable || not (msg.control_mode == mode_cartesian_twist) in
      if stopped then true else not (is_nonzero c msg.target_twist)

  unfoldable pub on_command : Conditioner F → ℕ → TeleopCommand F → Handled F
  unfolding hard_stop
  on_command c now msg =
      if hard_stop c msg then force_stop_display c now msg.target_twist.frame_id else (c, [])

  unfoldable pub on_status : Conditioner F → ℕ → TeleopStatus F → Handled F
  on_status c now msg =
      if msg.emergency_stop || not msg.enabled || not msg.safety_ok
      then force_stop_display c now ""
      else (c, [])

  -- `publish_display` after its tick; `c` holds the state that the tick left.
  unfoldable pub publish_action :
      DisplayAction → Option (TwistStamped F) → Conditioner F → ℕ → Handled F
  publish_action publish (some m) c now = (c, record m { stamp = now } ∷ [])
  publish_action publish none c now = (c, [])
  publish_action stop m c now = (record c { last_nonzero = none }, zero_message c now "" ∷ [])
  publish_action DisplayAction.none m c now = (c, [])

  -- The timer callback; it reads the clock for the tick, and again for the stamp.
  unfoldable pub publish_display : Conditioner F → ℕ → ℕ → Handled F
  unfolding publish_action
  publish_display c tick_now now =
      let (state, action) = tick c.state (seconds tick_now) in
      publish_action action c.last_nonzero (record c { state = state }) now
