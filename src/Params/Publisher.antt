-- ===== src/Params/Publisher.antt =====
-- The parameters of torque_publisher_node.py and of the source that it makes, of
-- ur_rtde_torque_bridge/ur_rtde_torque_bridge/ under the repository's src/.
use Prim.Native.String.{String}
use digital_twin_based_on_un.Common.{
  ◌≡◌, refl, List, [], ◌∷◌, Option, none, some, is_some, if◌then◌else◌,
}
use digital_twin_based_on_un.Common.Int.{ℤ, pos}
use digital_twin_based_on_un.Common.Floats.{Floats}
use digital_twin_based_on_un.Bridges.Joints.{lookup}
use digital_twin_based_on_un.Params.{
  integer_value, double_value, string_value, Declare, Declarations, ◌>>=◌, declare_all, as_text,
  as_real, as_whole,
}
use digital_twin_based_on_un.Params.Reading.{
  KeepsType, Accepts, declare_all-Accepts, chosen_text, chosen_real, chosen_whole, as_text-resolved,
  as_real-resolved, as_whole-resolved,
}
use digital_twin_based_on_un.Rtde.Socket.{frequency_of}
use digital_twin_based_on_un.Rtde.Publisher.{publish_rate}

-- What `__init__` keeps of the parameters.
pub record Settings (F : Type 0) : Type 0 where
  pub robot_ip : String
  pub rtde_port : ℤ
  pub rtde_field : String
  pub rate_hz : F
  pub output_topic : String

module _ {F : Type 0} ⦃fl : Floats F⦄ where
  abbrev pub declarations : Declarations F
  declarations =
      ("robot_ip", string_value "127.0.0.1")
      ∷ ("rtde_port", integer_value (pos 30004))
      ∷ ("rtde_field", string_value "actual_current_as_torque")
      ∷ ("publish_rate_hz", double_value (fl.decimal (pos 200) 1))
      ∷ ("output_topic", string_value "/joint_torques")
      ∷ []

  unfoldable pub configure : Declare F → Option (Settings F)
  configure declare_parameter = do
    ps ← declare_all declare_parameter declarations
    robot_ip ← as_text (lookup "robot_ip" ps)
    rtde_port ← as_whole (lookup "rtde_port" ps)
    rtde_field ← as_text (lookup "rtde_field" ps)
    publish_rate_hz ← as_real (lookup "publish_rate_hz" ps)
    output_topic ← as_text (lookup "output_topic" ps)
    some (record {
      robot_ip = robot_ip;
      rtde_port = rtde_port;
      rtde_field = rtde_field;
      rate_hz = publish_rate (fl.decimal (pos 200) 1) publish_rate_hz;
      output_topic = output_topic;
    })

  -- The settings by the values of the parameters.
  abbrev pub asked : Declare F → Settings F
  asked declare_parameter =
      let robot_ip : String = chosen_text declare_parameter "robot_ip" "127.0.0.1" in
      let rtde_port : ℤ = chosen_whole declare_parameter "rtde_port" (pos 30004) in
      let rtde_field : String =
        chosen_text declare_parameter "rtde_field" "actual_current_as_torque" in
      let publish_rate_hz : F =
        chosen_real declare_parameter "publish_rate_hz" (fl.decimal (pos 200) 1) in
      let output_topic : String = chosen_text declare_parameter "output_topic" "/joint_torques" in
      record {
        robot_ip = robot_ip;
        rtde_port = rtde_port;
        rtde_field = rtde_field;
        rate_hz = publish_rate (fl.decimal (pos 200) 1) publish_rate_hz;
        output_topic = output_topic;
      }

  pub configure_lem :
      (declare_parameter : Declare F)
      → KeepsType declare_parameter
      → Accepts declare_parameter declarations
      → configure declare_parameter ≡ some (asked declare_parameter)
  unfolding configure
  configure_lem declare_parameter typed h = rw (
    declare_all-Accepts declare_parameter declarations h,
    as_text-resolved declare_parameter typed declarations h "robot_ip" _ refl,
    as_whole-resolved declare_parameter typed declarations h "rtde_port" _ refl,
    as_text-resolved declare_parameter typed declarations h "rtde_field" _ refl,
    as_real-resolved declare_parameter typed declarations h "publish_rate_hz" _ refl,
    as_text-resolved declare_parameter typed declarations h "output_topic" _ refl,
  )

-- `_KNOWN_FIELDS`: the fields that the torque source accepts, and their units.
abbrev pub known_fields : List (String × String)
known_fields =
    ("actual_current_as_torque", "N.m") ∷ ("target_moment", "N.m") ∷ ("actual_current", "A") ∷ []

module _ {F : Type 0} ⦃fl : Floats F⦄ where
  -- The constructor of the node with that of its source, which raises ValueError for a field that
  -- it does not know: the settings, and the frequency of the source.
  unfoldable pub new_publisher : Declare F → Option (Settings F × F)
  new_publisher declare_parameter = do
    settings ← configure declare_parameter
    (if is_some (lookup settings.rtde_field known_fields)
        then some (settings, frequency_of (fl.decimal (pos 1250) 1) settings.rate_hz)
        else none)
