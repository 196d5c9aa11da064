-- ===== src/Params/Mirror.antt =====
-- The parameters of the bridges that copy one topic to another: joint_state_bridge_ros2unity.py,
-- joint_torque_bridge_ros2unity.py, io_states_bridge_ros2unity.py and
-- tool_data_bridge_ros2unity.py of digital_twin_on_unity_and_ros2/
-- digital_twin_on_unity_and_ros2/state_bridges/ under the repository's src/.
use Prim.Native.String.{String}
use digital_twin_based_on_un.Common.{◌≡◌, refl, [], ◌∷◌, Option, some}
use digital_twin_based_on_un.Bridges.Joints.{lookup}
use digital_twin_based_on_un.Params.{
  string_value, Declare, Declarations, ◌>>=◌, declare_all, as_text,
}
use digital_twin_based_on_un.Params.Reading.{
  KeepsType, Accepts, declare_all-Accepts, chosen_text, as_text-resolved,
}

-- What `__init__` keeps of the parameters.
pub record Settings : Type 0 where
  pub input_topic : String
  pub output_topic : String

-- The four nodes differ in the defaults.
module _ {F : Type 0} (default_input default_output : String) where
  abbrev pub declarations : Declarations F
  declarations =
      ("input_topic", string_value default_input)
      ∷ ("output_topic", string_value default_output)
      ∷ []

  unfoldable pub configure : Declare F → Option Settings
  configure declare_parameter = do
    ps ← declare_all declare_parameter declarations
    input_topic ← as_text (lookup "input_topic" ps)
    output_topic ← as_text (lookup "output_topic" ps)
    some (record { input_topic = input_topic; output_topic = output_topic })

  -- The settings by the values of the parameters.
  abbrev pub asked : Declare F → Settings
  asked declare_parameter =
      let input_topic : String = chosen_text declare_parameter "input_topic" default_input in
      let output_topic : String = chosen_text declare_parameter "output_topic" default_output in
      record { input_topic = input_topic; output_topic = output_topic }

  pub configure_lem :
      (declare_parameter : Declare F)
      → KeepsType declare_parameter
      → Accepts declare_parameter declarations
      → configure declare_parameter ≡ some (asked declare_parameter)
  unfolding configure
  configure_lem declare_parameter typed h = rw (
    declare_all-Accepts declare_parameter declarations h,
    as_text-resolved declare_parameter typed declarations h "input_topic" _ refl,
    as_text-resolved declare_parameter typed declarations h "output_topic" _ refl,
  )

-- The default input and output of each.
abbrev pub joint_state_topics : String × String
joint_state_topics = ("/joint_states", "/unity/joint_states")

abbrev pub joint_torque_topics : String × String
joint_torque_topics = ("/joint_torques", "/unity/joint_torques")

abbrev pub io_states_topics : String × String
io_states_topics = ("/io_and_status_controller/io_states", "/unity/io_states")

abbrev pub tool_data_topics : String × String
tool_data_topics = ("/io_and_status_controller/tool_data", "/unity/tool_data")
