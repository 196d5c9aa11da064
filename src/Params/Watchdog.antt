-- ===== src/Params/Watchdog.antt =====
-- The parameters of robot_program_watchdog_ros2unity.py of digital_twin_on_unity_and_ros2/
-- digital_twin_on_unity_and_ros2/command_bridges/ under the repository's src/.
use Prim.Native.String.{String}
use digital_twin_based_on_un.Common.{◌≡◌, refl, Bool, true, [], ◌∷◌, Option, some}
use digital_twin_based_on_un.Common.Int.{ℤ, pos}
use digital_twin_based_on_un.Common.Floats.{Floats, fl_max}
use digital_twin_based_on_un.Bridges.Joints.{lookup}
use digital_twin_based_on_un.Watchdog.{Config}
use digital_twin_based_on_un.Params.{
  Declare, bool_value, integer_value, double_value, string_value, Declarations, ◌>>=◌, declare_all,
  as_flag, as_whole, as_real, as_text, duration,
}
use digital_twin_based_on_un.Params.Reading.{
  KeepsType, Accepts, declare_all-Accepts, chosen_flag, chosen_whole, chosen_real, chosen_text,
  as_flag-resolved, as_whole-resolved, as_real-resolved, as_text-resolved,
}

-- What `__init__` keeps of the parameters.
pub record Settings (F : Type 0) : Type 0 where
  pub program_running_topic : String
  pub resend_service : String
  pub control_gate_topic : String
  pub gate_min_publishers : ℤ
  pub gate_debounce_s : F
  pub require_control_active : Bool
  pub false_debounce_s : F
  pub resend_cooldown_s : F
  pub max_consecutive_resends : ℤ
  pub check_period_s : F
  pub service_wait_timeout_s : F
  pub enable : Bool

module _ {F : Type 0} ⦃fl : Floats F⦄ where
  abbrev pub declarations : Declarations F
  declarations =
      ("program_running_topic", string_value "/io_and_status_controller/robot_program_running")
      ∷ ("resend_service", string_value "/io_and_status_controller/resend_robot_program")
      ∷ ("control_gate_topic", string_value "/teleop/command")
      ∷ ("gate_min_publishers", integer_value (pos 1))
      ∷ ("gate_debounce_s", double_value (fl.decimal (pos 10) 1))
      ∷ ("require_control_active", bool_value true)
      ∷ ("false_debounce_s", double_value (fl.decimal (pos 15) 1))
      ∷ ("resend_cooldown_s", double_value (fl.decimal (pos 50) 1))
      ∷ ("max_consecutive_resends", integer_value (pos 5))
      ∷ ("check_period_s", double_value (fl.decimal (pos 10) 1))
      ∷ ("service_wait_timeout_s", double_value (fl.decimal (pos 5) 1))
      ∷ ("enable", bool_value true)
      ∷ []

  unfoldable pub configure : Declare F → Option (Settings F)
  configure declare_parameter = do
    ps ← declare_all declare_parameter declarations
    program_running_topic ← as_text (lookup "program_running_topic" ps)
    resend_service ← as_text (lookup "resend_service" ps)
    control_gate_topic ← as_text (lookup "control_gate_topic" ps)
    gate_min_publishers ← as_whole (lookup "gate_min_publishers" ps)
    gate_debounce_s ← as_real (lookup "gate_debounce_s" ps)
    require_control_active ← as_flag (lookup "require_control_active" ps)
    false_debounce_s ← as_real (lookup "false_debounce_s" ps)
    resend_cooldown_s ← as_real (lookup "resend_cooldown_s" ps)
    max_consecutive_resends ← as_whole (lookup "max_consecutive_resends" ps)
    check_period_s ← as_real (lookup "check_period_s" ps)
    service_wait_timeout_s ← as_real (lookup "service_wait_timeout_s" ps)
    enable ← as_flag (lookup "enable" ps)
    some (record {
      program_running_topic = program_running_topic;
      resend_service = resend_service;
      control_gate_topic = control_gate_topic;
      gate_min_publishers = gate_min_publishers;
      gate_debounce_s = gate_debounce_s;
      require_control_active = require_control_active;
      false_debounce_s = false_debounce_s;
      resend_cooldown_s = resend_cooldown_s;
      max_consecutive_resends = max_consecutive_resends;
      check_period_s = fl_max check_period_s (fl.decimal (pos 1) 1);
      service_wait_timeout_s = service_wait_timeout_s;
      enable = enable;
    })

  -- What the handlers read of the settings.
  abbrev pub config_of : Settings F → Config
  config_of s = record {
    gate_min_publishers = s.gate_min_publishers;
    gate_debounce = duration s.gate_debounce_s;
    require_control_active = s.require_control_active;
    false_debounce = duration s.false_debounce_s;
    resend_cooldown = duration s.resend_cooldown_s;
    max_consecutive_resends = s.max_consecutive_resends;
    enable = s.enable;
  }

  -- The settings by the values of the parameters.
  abbrev pub asked : Declare F → Settings F
  asked declare_parameter = record {
    program_running_topic =
        chosen_text declare_parameter "program_running_topic"
          "/io_and_status_controller/robot_program_running";
    resend_service =
        chosen_text declare_parameter "resend_service"
          "/io_and_status_controller/resend_robot_program";
    control_gate_topic = chosen_text declare_parameter "control_gate_topic" "/teleop/command";
    gate_min_publishers = chosen_whole declare_parameter "gate_min_publishers" (pos 1);
    gate_debounce_s = chosen_real declare_parameter "gate_debounce_s" (fl.decimal (pos 10) 1);
    require_control_active = chosen_flag declare_parameter "require_control_active" true;
    false_debounce_s = chosen_real declare_parameter "false_debounce_s" (fl.decimal (pos 15) 1);
    resend_cooldown_s = chosen_real declare_parameter "resend_cooldown_s" (fl.decimal (pos 50) 1);
    max_consecutive_resends = chosen_whole declare_parameter "max_consecutive_resends" (pos 5);
    check_period_s =
        fl_max (chosen_real declare_parameter "check_period_s" (fl.decimal (pos 10) 1))
          (fl.decimal (pos 1) 1);
    service_wait_timeout_s =
        chosen_real declare_parameter "service_wait_timeout_s" (fl.decimal (pos 5) 1);
    enable = chosen_flag declare_parameter "enable" true;
  }

  pub configure_lem :
      (declare_parameter : Declare F)
      → KeepsType declare_parameter
      → Accepts declare_parameter declarations
      → configure declare_parameter ≡ some (asked declare_parameter)
  unfolding configure
  configure_lem declare_parameter typed h = rw (
    declare_all-Accepts declare_parameter declarations h,
    as_text-resolved declare_parameter typed declarations h "program_running_topic" _ refl,
    as_text-resolved declare_parameter typed declarations h "resend_service" _ refl,
    as_text-resolved declare_parameter typed declarations h "control_gate_topic" _ refl,
    as_whole-resolved declare_parameter typed declarations h "gate_min_publishers" _ refl,
    as_real-resolved declare_parameter typed declarations h "gate_debounce_s" _ refl,
    as_flag-resolved declare_parameter typed declarations h "require_control_active" _ refl,
    as_real-resolved declare_parameter typed declarations h "false_debounce_s" _ refl,
    as_real-resolved declare_parameter typed declarations h "resend_cooldown_s" _ refl,
    as_whole-resolved declare_parameter typed declarations h "max_consecutive_resends" _ refl,
    as_real-resolved declare_parameter typed declarations h "check_period_s" _ refl,
    as_real-resolved declare_parameter typed declarations h "service_wait_timeout_s" _ refl,
    as_flag-resolved declare_parameter typed declarations h "enable" _ refl,
  )
