-- ===== src/Params/EnableBridge.antt =====
-- The parameters of teleop_enable_bridge_ros2unity.py of digital_twin_on_unity_and_ros2/
-- digital_twin_on_unity_and_ros2/command_bridges/ under the repository's src/.
use Prim.Native.String.{String}
use digital_twin_based_on_un.Common.{◌≡◌, refl, [], ◌∷◌, Option, some}
use digital_twin_based_on_un.Common.Int.{pos}
use digital_twin_based_on_un.Common.Floats.{Floats}
use digital_twin_based_on_un.Bridges.Joints.{lookup}
use digital_twin_based_on_un.Params.{
  double_value, string_value, Declare, Declarations, ◌>>=◌, declare_all, as_text, as_real,
}
use digital_twin_based_on_un.Params.Reading.{
  KeepsType, Accepts, declare_all-Accepts, chosen_text, chosen_real, as_text-resolved,
  as_real-resolved,
}

-- What `__init__` keeps of the parameters.
pub record Settings (F : Type 0) : Type 0 where
  pub enable_topic : String
  pub service_name : String
  pub service_wait_timeout_s : F

module _ {F : Type 0} ⦃fl : Floats F⦄ where
  abbrev pub declarations : Declarations F
  declarations =
      ("enable_topic", string_value "/unity/teleop/enable")
      ∷ ("set_teleop_enable_service", string_value "/teleop/set_teleop_enable")
      ∷ ("service_wait_timeout_s", double_value (fl.decimal (pos 5) 1))
      ∷ []

  unfoldable pub configure : Declare F → Option (Settings F)
  configure declare_parameter = do
    ps ← declare_all declare_parameter declarations
    enable_topic ← as_text (lookup "enable_topic" ps)
    set_teleop_enable_service ← as_text (lookup "set_teleop_enable_service" ps)
    service_wait_timeout_s ← as_real (lookup "service_wait_timeout_s" ps)
    some (record {
      enable_topic = enable_topic;
      service_name = set_teleop_enable_service;
      service_wait_timeout_s = service_wait_timeout_s;
    })

  -- The settings by the values of the parameters.
  abbrev pub asked : Declare F → Settings F
  asked declare_parameter =
      let enable_topic : String =
        chosen_text declare_parameter "enable_topic" "/unity/teleop/enable" in
      let set_teleop_enable_service : String =
        chosen_text declare_parameter "set_teleop_enable_service" "/teleop/set_teleop_enable" in
      let service_wait_timeout_s : F =
        chosen_real declare_parameter "service_wait_timeout_s" (fl.decimal (pos 5) 1) in
      record {
        enable_topic = enable_topic;
        service_name = set_teleop_enable_service;
        service_wait_timeout_s = service_wait_timeout_s;
      }

  pub configure_lem :
      (declare_parameter : Declare F)
      → KeepsType declare_parameter
      → Accepts declare_parameter declarations
      → configure declare_parameter ≡ some (asked declare_parameter)
  unfolding configure
  configure_lem declare_parameter typed h = rw (
    declare_all-Accepts declare_parameter declarations h,
    as_text-resolved declare_parameter typed declarations h "enable_topic" _ refl,
    as_text-resolved declare_parameter typed declarations h "set_teleop_enable_service" _ refl,
    as_real-resolved declare_parameter typed declarations h "service_wait_timeout_s" _ refl,
  )
