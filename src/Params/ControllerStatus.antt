-- ===== src/Params/ControllerStatus.antt =====
-- The parameters of controller_status_bridge_ros2unity.py of digital_twin_on_unity_and_ros2/
-- digital_twin_on_unity_and_ros2/state_bridges/ under the repository's src/.
use Prim.Native.String.{String}
use digital_twin_based_on_un.Common.{◌≡◌, refl, [], ◌∷◌, Option, some}
use digital_twin_based_on_un.Common.Int.{pos}
use digital_twin_based_on_un.Common.Floats.{Floats, fl_max}
use digital_twin_based_on_un.Bridges.Joints.{lookup}
use digital_twin_based_on_un.Params.{
  double_value, string_value, Declare, Declarations, ◌>>=◌, declare_all, as_text, as_real,
}
use digital_twin_based_on_un.Params.Reading.{
  KeepsType, Accepts, declare_all-Accepts, chosen_text, chosen_real, as_text-resolved,
  as_real-resolved,
}

-- What `__init__` keeps of the parameters.
pub record Settings (F : Type 0) : Type 0 where
  pub service_name : String
  pub output_topic : String
  pub period_s : F

module _ {F : Type 0} ⦃fl : Floats F⦄ where
  abbrev pub declarations : Declarations F
  declarations =
      ("service_name", string_value "/controller_manager/list_controllers")
      ∷ ("output_topic", string_value "/unity/controller_status")
      ∷ ("poll_rate_hz", double_value (fl.decimal (pos 20) 1))
      ∷ []

  unfoldable pub configure : Declare F → Option (Settings F)
  configure declare_parameter = do
    ps ← declare_all declare_parameter declarations
    service_name ← as_text (lookup "service_name" ps)
    output_topic ← as_text (lookup "output_topic" ps)
    poll_rate_hz ← as_real (lookup "poll_rate_hz" ps)
    some (record {
      service_name = service_name;
      output_topic = output_topic;
      period_s = fl.div (fl.decimal (pos 10) 1) (fl_max poll_rate_hz (fl.decimal (pos 1) 1));
    })

  -- The settings by the values of the parameters.
  abbrev pub asked : Declare F → Settings F
  asked declare_parameter =
      let service_name : String =
        chosen_text declare_parameter "service_name" "/controller_manager/list_controllers" in
      let output_topic : String =
        chosen_text declare_parameter "output_topic" "/unity/controller_status" in
      let poll_rate_hz : F = chosen_real declare_parameter "poll_rate_hz" (fl.decimal (pos 20) 1) in
      record {
        service_name = service_name;
        output_topic = output_topic;
        period_s = fl.div (fl.decimal (pos 10) 1) (fl_max poll_rate_hz (fl.decimal (pos 1) 1));
      }

  pub configure_lem :
      (declare_parameter : Declare F)
      → KeepsType declare_parameter
      → Accepts declare_parameter declarations
      → configure declare_parameter ≡ some (asked declare_parameter)
  unfolding configure
  configure_lem declare_parameter typed h = rw (
    declare_all-Accepts declare_parameter declarations h,
    as_text-resolved declare_parameter typed declarations h "service_name" _ refl,
    as_text-resolved declare_parameter typed declarations h "output_topic" _ refl,
    as_real-resolved declare_parameter typed declarations h "poll_rate_hz" _ refl,
  )
