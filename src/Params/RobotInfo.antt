-- ===== src/Params/RobotInfo.antt =====
-- The parameters of robot_info_bridge_ros2unity.py of digital_twin_on_unity_and_ros2/
-- digital_twin_on_unity_and_ros2/state_bridges/ under the repository's src/.
use Prim.Native.String.{String}
use digital_twin_based_on_un.Common.{◌≡◌, refl, [], ◌∷◌, Option, some}
use digital_twin_based_on_un.Common.Int.{pos}
use digital_twin_based_on_un.Common.Floats.{Floats, fl_max}
use digital_twin_based_on_un.Bridges.Joints.{lookup}
use digital_twin_based_on_un.Params.{
  double_value, string_value, Declare, Declarations, ◌>>=◌, declare_all, as_text, as_real,
}
use digital_twin_based_on_un.Params.Reading.{
  KeepsType, Accepts, declare_all-Accepts, chosen_text, chosen_real, as_text-resolved,
  as_real-resolved,
}

-- What `__init__` keeps of the parameters.
pub record Settings (F : Type 0) : Type 0 where
  pub software_version_service : String
  pub loaded_program_service : String
  pub program_state_service : String
  pub output_topic : String
  pub period_s : F

module _ {F : Type 0} ⦃fl : Floats F⦄ where
  abbrev pub declarations : Declarations F
  declarations =
      (
        "software_version_service",
        string_value "/ur_configuration_controller/get_robot_software_version",
      )
      ∷ ("loaded_program_service", string_value "/dashboard_client/get_loaded_program")
      ∷ ("program_state_service", string_value "/dashboard_client/program_state")
      ∷ ("output_topic", string_value "/unity/robot_info")
      ∷ ("poll_rate_hz", double_value (fl.decimal (pos 10) 1))
      ∷ []

  unfoldable pub configure : Declare F → Option (Settings F)
  configure declare_parameter = do
    ps ← declare_all declare_parameter declarations
    software_version_service ← as_text (lookup "software_version_service" ps)
    loaded_program_service ← as_text (lookup "loaded_program_service" ps)
    program_state_service ← as_text (lookup "program_state_service" ps)
    output_topic ← as_text (lookup "output_topic" ps)
    poll_rate_hz ← as_real (lookup "poll_rate_hz" ps)
    some (record {
      software_version_service = software_version_service;
      loaded_program_service = loaded_program_service;
      program_state_service = program_state_service;
      output_topic = output_topic;
      period_s = fl.div (fl.decimal (pos 10) 1) (fl_max poll_rate_hz (fl.decimal (pos 1) 1));
    })

  -- The settings by the values of the parameters.
  abbrev pub asked : Declare F → Settings F
  asked declare_parameter =
      let software_version_service : String =
        chosen_text declare_parameter "software_version_service"
          "/ur_configuration_controller/get_robot_software_version" in
      let loaded_program_service : String =
        chosen_text declare_parameter "loaded_program_service"
          "/dashboard_client/get_loaded_program" in
      let program_state_service : String =
        chosen_text declare_parameter "program_state_service" "/dashboard_client/program_state" in
      let output_topic : String =
        chosen_text declare_parameter "output_topic" "/unity/robot_info" in
      let poll_rate_hz : F = chosen_real declare_parameter "poll_rate_hz" (fl.decimal (pos 10) 1) in
      record {
        software_version_service = software_version_service;
        loaded_program_service = loaded_program_service;
        program_state_service = program_state_service;
        output_topic = output_topic;
        period_s = fl.div (fl.decimal (pos 10) 1) (fl_max poll_rate_hz (fl.decimal (pos 1) 1));
      }

  pub configure_lem :
      (declare_parameter : Declare F)
      → KeepsType declare_parameter
      → Accepts declare_parameter declarations
      → configure declare_parameter ≡ some (asked declare_parameter)
  unfolding configure
  configure_lem declare_parameter typed h = rw (
    declare_all-Accepts declare_parameter declarations h,
    as_text-resolved declare_parameter typed declarations h "software_version_service" _ refl,
    as_text-resolved declare_parameter typed declarations h "loaded_program_service" _ refl,
    as_text-resolved declare_parameter typed declarations h "program_state_service" _ refl,
    as_text-resolved declare_parameter typed declarations h "output_topic" _ refl,
    as_real-resolved declare_parameter typed declarations h "poll_rate_hz" _ refl,
  )
