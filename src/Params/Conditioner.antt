-- ===== src/Params/Conditioner.antt =====
-- The parameters of twist_display_conditioner_ros2unity.py of digital_twin_on_unity_and_ros2/
-- digital_twin_on_unity_and_ros2/command_bridges/ under the repository's src/.
use Prim.Native.String.{String}
use digital_twin_based_on_un.Common.{◌≡◌, refl, [], ◌∷◌, Option, some}
use digital_twin_based_on_un.Common.Int.{pos}
use digital_twin_based_on_un.Common.Floats.{Floats, fl_max}
use digital_twin_based_on_un.Bridges.Joints.{lookup}
use digital_twin_based_on_un.Params.{
  double_value, string_value, Declare, Declarations, ◌>>=◌, declare_all, as_text, as_real,
}
use digital_twin_based_on_un.Params.Reading.{
  KeepsType, Accepts, declare_all-Accepts, chosen_text, chosen_real, as_text-resolved,
  as_real-resolved,
}
use digital_twin_based_on_un.Conditioner.{Conditioner, init}

-- What `__init__` keeps of the parameters.
pub record Settings (F : Type 0) : Type 0 where
  pub node : Conditioner F
  pub twist_topic : String
  pub command_topic : String
  pub status_topic : String
  pub display_topic : String
  pub period_s : F

module _ {F : Type 0} ⦃fl : Floats F⦄ where
  abbrev pub declarations : Declarations F
  declarations =
      ("twist_topic", string_value "/servo_node/delta_twist_cmds")
      ∷ ("command_topic", string_value "/teleop/command")
      ∷ ("status_topic", string_value "/teleop/status")
      ∷ ("display_topic", string_value "/unity/cmd_display/twist")
      ∷ ("display_rate_hz", double_value (fl.decimal (pos 300) 1))
      ∷ ("initial_hold_s", double_value (fl.decimal (pos 65) 2))
      ∷ ("active_timeout_s", double_value (fl.decimal (pos 25) 2))
      ∷ ("linear_zero_epsilon", double_value (fl.decimal (pos 1) 6))
      ∷ ("angular_zero_epsilon", double_value (fl.decimal (pos 1) 6))
      ∷ []

  unfoldable pub configure : Declare F → Option (Settings F)
  configure declare_parameter = do
    ps ← declare_all declare_parameter declarations
    twist_topic ← as_text (lookup "twist_topic" ps)
    command_topic ← as_text (lookup "command_topic" ps)
    status_topic ← as_text (lookup "status_topic" ps)
    display_topic ← as_text (lookup "display_topic" ps)
    display_rate_hz ← as_real (lookup "display_rate_hz" ps)
    initial_hold_s ← as_real (lookup "initial_hold_s" ps)
    active_timeout_s ← as_real (lookup "active_timeout_s" ps)
    linear_zero_epsilon ← as_real (lookup "linear_zero_epsilon" ps)
    angular_zero_epsilon ← as_real (lookup "angular_zero_epsilon" ps)
    some (record {
      node = init linear_zero_epsilon angular_zero_epsilon initial_hold_s active_timeout_s;
      twist_topic = twist_topic;
      command_topic = command_topic;
      status_topic = status_topic;
      display_topic = display_topic;
      period_s = fl.div (fl.decimal (pos 10) 1) (fl_max display_rate_hz (fl.decimal (pos 10) 1));
    })

  -- The settings by the values of the parameters.
  abbrev pub asked : Declare F → Settings F
  asked declare_parameter =
      let twist_topic : String =
        chosen_text declare_parameter "twist_topic" "/servo_node/delta_twist_cmds" in
      let command_topic : String =
        chosen_text declare_parameter "command_topic" "/teleop/command" in
      let status_topic : String = chosen_text declare_parameter "status_topic" "/teleop/status" in
      let display_topic : String =
        chosen_text declare_parameter "display_topic" "/unity/cmd_display/twist" in
      let display_rate_hz : F =
        chosen_real declare_parameter "display_rate_hz" (fl.decimal (pos 300) 1) in
      let initial_hold_s : F =
        chosen_real declare_parameter "initial_hold_s" (fl.decimal (pos 65) 2) in
      let active_timeout_s : F =
        chosen_real declare_parameter "active_timeout_s" (fl.decimal (pos 25) 2) in
      let linear_zero_epsilon : F =
        chosen_real declare_parameter "linear_zero_epsilon" (fl.decimal (pos 1) 6) in
      let angular_zero_epsilon : F =
        chosen_real declare_parameter "angular_zero_epsilon" (fl.decimal (pos 1) 6) in
      record {
        node = init linear_zero_epsilon angular_zero_epsilon initial_hold_s active_timeout_s;
        twist_topic = twist_topic;
        command_topic = command_topic;
        status_topic = status_topic;
        display_topic = display_topic;
        period_s = fl.div (fl.decimal (pos 10) 1) (fl_max display_rate_hz (fl.decimal (pos 10) 1));
      }

  pub configure_lem :
      (declare_parameter : Declare F)
      → KeepsType declare_parameter
      → Accepts declare_parameter declarations
      → configure declare_parameter ≡ some (asked declare_parameter)
  unfolding configure
  configure_lem declare_parameter typed h = rw (
    declare_all-Accepts declare_parameter declarations h,
    as_text-resolved declare_parameter typed declarations h "twist_topic" _ refl,
    as_text-resolved declare_parameter typed declarations h "command_topic" _ refl,
    as_text-resolved declare_parameter typed declarations h "status_topic" _ refl,
    as_text-resolved declare_parameter typed declarations h "display_topic" _ refl,
    as_real-resolved declare_parameter typed declarations h "display_rate_hz" _ refl,
    as_real-resolved declare_parameter typed declarations h "initial_hold_s" _ refl,
    as_real-resolved declare_parameter typed declarations h "active_timeout_s" _ refl,
    as_real-resolved declare_parameter typed declarations h "linear_zero_epsilon" _ refl,
    as_real-resolved declare_parameter typed declarations h "angular_zero_epsilon" _ refl,
  )
