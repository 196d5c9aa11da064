-- ===== src/Params/Observer.antt =====
-- The parameters of command_supervisor_ros2unity.py of digital_twin_on_unity_and_ros2/
-- digital_twin_on_unity_and_ros2/command_bridges/ under the repository's src/.
use Prim.Native.String.{String}
use digital_twin_based_on_un.Common.{◌≡◌, refl, [], ◌∷◌, Option, some}
use digital_twin_based_on_un.Common.Floats.{Floats}
use digital_twin_based_on_un.Bridges.Joints.{lookup}
use digital_twin_based_on_un.Params.{
  string_value, Declare, Declarations, ◌>>=◌, declare_all, as_text,
}
use digital_twin_based_on_un.Params.Reading.{
  KeepsType, Accepts, declare_all-Accepts, chosen_text, as_text-resolved,
}
use digital_twin_based_on_un.Observer.{Topics}

module _ {F : Type 0} ⦃fl : Floats F⦄ where
  abbrev pub declarations : Declarations F
  declarations =
      ("command_topic", string_value "/teleop/command")
      ∷ ("status_topic", string_value "/teleop/status")
      ∷ ("joint_velocity_topic", string_value "/teleop/validated/joint_velocity")
      ∷ ("joint_position_topic", string_value "/teleop/validated/joint_position")
      ∷ ("cartesian_pose_topic", string_value "/teleop/validated/cartesian_pose")
      ∷ ("twist_topic", string_value "/servo_node/delta_twist_cmds")
      ∷ []

  unfoldable pub configure : Declare F → Option Topics
  configure declare_parameter = do
    ps ← declare_all declare_parameter declarations
    command_topic ← as_text (lookup "command_topic" ps)
    status_topic ← as_text (lookup "status_topic" ps)
    joint_velocity_topic ← as_text (lookup "joint_velocity_topic" ps)
    joint_position_topic ← as_text (lookup "joint_position_topic" ps)
    cartesian_pose_topic ← as_text (lookup "cartesian_pose_topic" ps)
    twist_topic ← as_text (lookup "twist_topic" ps)
    some (record {
      command_topic = command_topic;
      status_topic = status_topic;
      joint_velocity_topic = joint_velocity_topic;
      joint_position_topic = joint_position_topic;
      cartesian_pose_topic = cartesian_pose_topic;
      twist_topic = twist_topic;
    })

  -- The settings by the values of the parameters.
  abbrev pub asked : Declare F → Topics
  asked declare_parameter =
      let command_topic : String =
        chosen_text declare_parameter "command_topic" "/teleop/command" in
      let status_topic : String = chosen_text declare_parameter "status_topic" "/teleop/status" in
      let joint_velocity_topic : String =
        chosen_text declare_parameter "joint_velocity_topic" "/teleop/validated/joint_velocity" in
      let joint_position_topic : String =
        chosen_text declare_parameter "joint_position_topic" "/teleop/validated/joint_position" in
      let cartesian_pose_topic : String =
        chosen_text declare_parameter "cartesian_pose_topic" "/teleop/validated/cartesian_pose" in
      let twist_topic : String =
        chosen_text declare_parameter "twist_topic" "/servo_node/delta_twist_cmds" in
      record {
        command_topic = command_topic;
        status_topic = status_topic;
        joint_velocity_topic = joint_velocity_topic;
        joint_position_topic = joint_position_topic;
        cartesian_pose_topic = cartesian_pose_topic;
        twist_topic = twist_topic;
      }

  pub configure_lem :
      (declare_parameter : Declare F)
      → KeepsType declare_parameter
      → Accepts declare_parameter declarations
      → configure declare_parameter ≡ some (asked declare_parameter)
  unfolding configure
  configure_lem declare_parameter typed h = rw (
    declare_all-Accepts declare_parameter declarations h,
    as_text-resolved declare_parameter typed declarations h "command_topic" _ refl,
    as_text-resolved declare_parameter typed declarations h "status_topic" _ refl,
    as_text-resolved declare_parameter typed declarations h "joint_velocity_topic" _ refl,
    as_text-resolved declare_parameter typed declarations h "joint_position_topic" _ refl,
    as_text-resolved declare_parameter typed declarations h "cartesian_pose_topic" _ refl,
    as_text-resolved declare_parameter typed declarations h "twist_topic" _ refl,
  )
