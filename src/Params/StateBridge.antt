-- ===== src/Params/StateBridge.antt =====
-- The parameters of ur_state_bridge_ros2unity.py of digital_twin_on_unity_and_ros2/
-- digital_twin_on_unity_and_ros2/state_bridges/ under the repository's src/.
use Prim.Native.String.{String}
use digital_twin_based_on_un.Common.{◌≡◌, refl, [], ◌∷◌, Option, some, if◌then◌else◌}
use digital_twin_based_on_un.Common.Int.{pos}
use digital_twin_based_on_un.Common.Floats.{Floats}
use digital_twin_based_on_un.Bridges.Joints.{lookup}
use digital_twin_based_on_un.Params.{
  double_value, string_value, Declare, Declarations, ◌>>=◌, declare_all, as_text, as_real,
}
use digital_twin_based_on_un.Params.Reading.{
  KeepsType, Accepts, declare_all-Accepts, chosen_text, chosen_real, as_text-resolved,
  as_real-resolved,
}

module _ {F : Type 0} ⦃fl : Floats F⦄ where
  -- `_period_from_rate`, from the value of the parameter.
  unfoldable pub period_from_rate : F → F
  period_from_rate rate =
      let one : F = fl.decimal (pos 10) 1 in
      if fl.le rate (fl.decimal (pos 0) 1) then fl.div one one else fl.div one rate

-- What `__init__` keeps of the parameters.
pub record Settings (F : Type 0) : Type 0 where
  pub tcp_pose_topic : String
  pub robot_mode_topic : String
  pub safety_mode_topic : String
  pub robot_program_running_topic : String
  pub speed_scaling_topic : String
  pub wrench_topic : String
  pub tcp_pose_output_topic : String
  pub robot_status_output_topic : String
  pub wrench_output_topic : String
  pub tcp_pose_period_s : F
  pub robot_status_period_s : F
  pub wrench_period_s : F

module _ {F : Type 0} ⦃fl : Floats F⦄ where
  abbrev pub declarations : Declarations F
  declarations =
      ("tcp_pose_topic", string_value "/tcp_pose_broadcaster/pose")
      ∷ ("robot_mode_topic", string_value "/io_and_status_controller/robot_mode")
      ∷ ("safety_mode_topic", string_value "/io_and_status_controller/safety_mode")
      ∷ (
        "robot_program_running_topic",
        string_value "/io_and_status_controller/robot_program_running",
      )
      ∷ ("speed_scaling_topic", string_value "/speed_scaling_state_broadcaster/speed_scaling")
      ∷ ("wrench_topic", string_value "/force_torque_sensor_broadcaster/wrench")
      ∷ ("tcp_pose_output_topic", string_value "/unity/tcp_pose")
      ∷ ("robot_status_output_topic", string_value "/unity/robot_status")
      ∷ ("wrench_output_topic", string_value "/unity/wrench")
      ∷ ("tcp_pose_publish_rate_hz", double_value (fl.decimal (pos 300) 1))
      ∷ ("robot_status_publish_rate_hz", double_value (fl.decimal (pos 100) 1))
      ∷ ("wrench_publish_rate_hz", double_value (fl.decimal (pos 300) 1))
      ∷ []

  unfoldable pub configure : Declare F → Option (Settings F)
  configure declare_parameter = do
    ps ← declare_all declare_parameter declarations
    tcp_pose_topic ← as_text (lookup "tcp_pose_topic" ps)
    robot_mode_topic ← as_text (lookup "robot_mode_topic" ps)
    safety_mode_topic ← as_text (lookup "safety_mode_topic" ps)
    robot_program_running_topic ← as_text (lookup "robot_program_running_topic" ps)
    speed_scaling_topic ← as_text (lookup "speed_scaling_topic" ps)
    wrench_topic ← as_text (lookup "wrench_topic" ps)
    tcp_pose_output_topic ← as_text (lookup "tcp_pose_output_topic" ps)
    robot_status_output_topic ← as_text (lookup "robot_status_output_topic" ps)
    wrench_output_topic ← as_text (lookup "wrench_output_topic" ps)
    tcp_pose_publish_rate_hz ← as_real (lookup "tcp_pose_publish_rate_hz" ps)
    robot_status_publish_rate_hz ← as_real (lookup "robot_status_publish_rate_hz" ps)
    wrench_publish_rate_hz ← as_real (lookup "wrench_publish_rate_hz" ps)
    some (record {
      tcp_pose_topic = tcp_pose_topic;
      robot_mode_topic = robot_mode_topic;
      safety_mode_topic = safety_mode_topic;
      robot_program_running_topic = robot_program_running_topic;
      speed_scaling_topic = speed_scaling_topic;
      wrench_topic = wrench_topic;
      tcp_pose_output_topic = tcp_pose_output_topic;
      robot_status_output_topic = robot_status_output_topic;
      wrench_output_topic = wrench_output_topic;
      tcp_pose_period_s = period_from_rate tcp_pose_publish_rate_hz;
      robot_status_period_s = period_from_rate robot_status_publish_rate_hz;
      wrench_period_s = period_from_rate wrench_publish_rate_hz;
    })

  -- The settings by the values of the parameters.
  abbrev pub asked : Declare F → Settings F
  asked declare_parameter =
      let tcp_pose_topic : String =
        chosen_text declare_parameter "tcp_pose_topic" "/tcp_pose_broadcaster/pose" in
      let robot_mode_topic : String =
        chosen_text declare_parameter "robot_mode_topic" "/io_and_status_controller/robot_mode" in
      let safety_mode_topic : String =
        chosen_text declare_parameter "safety_mode_topic" "/io_and_status_controller/safety_mode" in
      let robot_program_running_topic : String =
        chosen_text declare_parameter "robot_program_running_topic"
          "/io_and_status_controller/robot_program_running" in
      let speed_scaling_topic : String =
        chosen_text declare_parameter "speed_scaling_topic"
          "/speed_scaling_state_broadcaster/speed_scaling" in
      let wrench_topic : String =
        chosen_text declare_parameter "wrench_topic" "/force_torque_sensor_broadcaster/wrench" in
      let tcp_pose_output_topic : String =
        chosen_text declare_parameter "tcp_pose_output_topic" "/unity/tcp_pose" in
      let robot_status_output_topic : String =
        chosen_text declare_parameter "robot_status_output_topic" "/unity/robot_status" in
      let wrench_output_topic : String =
        chosen_text declare_parameter "wrench_output_topic" "/unity/wrench" in
      let tcp_pose_publish_rate_hz : F =
        chosen_real declare_parameter "tcp_pose_publish_rate_hz" (fl.decimal (pos 300) 1) in
      let robot_status_publish_rate_hz : F =
        chosen_real declare_parameter "robot_status_publish_rate_hz" (fl.decimal (pos 100) 1) in
      let wrench_publish_rate_hz : F =
        chosen_real declare_parameter "wrench_publish_rate_hz" (fl.decimal (pos 300) 1) in
      record {
        tcp_pose_topic = tcp_pose_topic;
        robot_mode_topic = robot_mode_topic;
        safety_mode_topic = safety_mode_topic;
        robot_program_running_topic = robot_program_running_topic;
        speed_scaling_topic = speed_scaling_topic;
        wrench_topic = wrench_topic;
        tcp_pose_output_topic = tcp_pose_output_topic;
        robot_status_output_topic = robot_status_output_topic;
        wrench_output_topic = wrench_output_topic;
        tcp_pose_period_s = period_from_rate tcp_pose_publish_rate_hz;
        robot_status_period_s = period_from_rate robot_status_publish_rate_hz;
        wrench_period_s = period_from_rate wrench_publish_rate_hz;
      }

  pub configure_lem :
      (declare_parameter : Declare F)
      → KeepsType declare_parameter
      → Accepts declare_parameter declarations
      → configure declare_parameter ≡ some (asked declare_parameter)
  unfolding configure
  configure_lem declare_parameter typed h = rw (
    declare_all-Accepts declare_parameter declarations h,
    as_text-resolved declare_parameter typed declarations h "tcp_pose_topic" _ refl,
    as_text-resolved declare_parameter typed declarations h "robot_mode_topic" _ refl,
    as_text-resolved declare_parameter typed declarations h "safety_mode_topic" _ refl,
    as_text-resolved declare_parameter typed declarations h "robot_program_running_topic" _ refl,
    as_text-resolved declare_parameter typed declarations h "speed_scaling_topic" _ refl,
    as_text-resolved declare_parameter typed declarations h "wrench_topic" _ refl,
    as_text-resolved declare_parameter typed declarations h "tcp_pose_output_topic" _ refl,
    as_text-resolved declare_parameter typed declarations h "robot_status_output_topic" _ refl,
    as_text-resolved declare_parameter typed declarations h "wrench_output_topic" _ refl,
    as_real-resolved declare_parameter typed declarations h "tcp_pose_publish_rate_hz" _ refl,
    as_real-resolved declare_parameter typed declarations h "robot_status_publish_rate_hz" _ refl,
    as_real-resolved declare_parameter typed declarations h "wrench_publish_rate_hz" _ refl,
  )
