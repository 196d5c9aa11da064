-- ===== src/Params/Tests.antt =====
-- The default parameters, and an instance of each theorem.
use Prim.Native.String.{String}
use digital_twin_based_on_un.Common.{
  ◌≡◌, refl, true, List, [], ◌∷◌, none, some, ◌==◌, if◌then◌else◌,
}
use digital_twin_based_on_un.Common.Int.{ℤ, pos}
use digital_twin_based_on_un.Common.Samples.{whole_floats}
use digital_twin_based_on_un.Bridges.Joints.{lookup}
use digital_twin_based_on_un.Watchdog.{Config}
use digital_twin_based_on_un.Params.{Declare, Value, double_value, string_value, kind, declare_all}
use digital_twin_based_on_un.Params.Watchdog
use digital_twin_based_on_un.Params.Servo
use digital_twin_based_on_un.Params.Publisher
use digital_twin_based_on_un.Params.Observer
use digital_twin_based_on_un.Params.Mirror
use digital_twin_based_on_un.Observer.{default_topics}

-- A sample float is a number of nanoseconds.
abbrev defaults : Config
defaults = record {
  gate_min_publishers = pos 1;
  gate_debounce = pos 1000000000;
  require_control_active = true;
  false_debounce = pos 1500000000;
  resend_cooldown = pos 5000000000;
  max_consecutive_resends = pos 5;
  enable = true;
}

-- A node with overrides: one of another type than the default is refused.
abbrev started_with : List (String × Value ℤ) → Declare ℤ
started_with overrides name default = elim (lookup name overrides) [
  | none ↦ some default
  | some v ↦ if kind v == kind default then some v else none
]

config_of-asked : Watchdog.config_of (Watchdog.asked (started_with [])) ≡ defaults
config_of-asked = refl

-- A period below the floor, and a field that the source does not know.
abbrev overrides : List (String × Value ℤ)
overrides = ("check_period_s", double_value (pos 5)) ∷ ("rtde_field", string_value "actual_q") ∷ []

check_period-floor : (Watchdog.asked (started_with overrides)).check_period_s ≡ pos 100000000
check_period-floor = refl

new_publisher-unknown_field : Publisher.new_publisher (started_with overrides) ≡ none
unfolding Publisher.new_publisher Publisher.configure declare_all
new_publisher-unknown_field = refl

-- By default the observer watches the topic on which the servo publishes its commands, and the
-- torque bridge the one of the torque publisher.
observer-asked : Observer.asked {F = ℤ} (started_with []) ≡ default_topics
observer-asked = refl

servo-observer :
    (Servo.asked (started_with [])).command_topic
    ≡ (Observer.asked {F = ℤ} (started_with [])).command_topic
servo-observer = refl

publisher-bridge : (Publisher.asked (started_with [])).output_topic ≡ Mirror.joint_torque_topics.0
publisher-bridge = refl
