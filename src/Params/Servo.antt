-- ===== src/Params/Servo.antt =====
-- The parameters of keyboard_unity_servo_ros2unity.py of digital_twin_on_unity_and_ros2/
-- digital_twin_on_unity_and_ros2/command_bridges/ under the repository's src/.
use Prim.Native.String.{String}
use digital_twin_based_on_un.Common.{
  ℕ, ◌≡◌, refl, Bool, true, false, List, [], ◌∷◌, Option, none, some, ◌&&◌, ◌==◌, if◌then◌else◌,
}
use digital_twin_based_on_un.Common.Int.{ℤ, pos, negsuc, pos_part}
use digital_twin_based_on_un.Common.Floats.{Floats, fl_max}
use digital_twin_based_on_un.Bridges.Joints.{lookup}
use digital_twin_based_on_un.Params.{
  bool_value, integer_value, double_value, string_value, double_array_value, string_array_value,
  unset_array, Declare, Declarations, ◌>>=◌, declare_all, as_text, as_real, as_whole, as_flag,
  as_texts, as_array, duration,
}
use digital_twin_based_on_un.Params.Reading.{
  KeepsType, Accepts, declare_all-Accepts, chosen_text, chosen_real, chosen_whole, chosen_flag,
  chosen_texts, chosen_array, as_text-resolved, as_real-resolved, as_whole-resolved,
  as_flag-resolved, as_texts-resolved, as_array-resolved,
}
use digital_twin_based_on_un.Msgs.{PoseStamped}
use digital_twin_based_on_un.Jog.{codes}
use digital_twin_based_on_un.Servo.{Config}
use digital_twin_based_on_un.Servo.Home.{is_empty, double_array_parameter, make_home_pose}

-- `rstrip("/")`
unfoldable pub rstrip_slash : List ℕ → List ℕ
rstrip_slash [] = []
rstrip_slash (c ∷ cs) =
    let rest = rstrip_slash cs in if is_empty rest && c == 47 then [] else c ∷ rest

-- What `__init__` keeps of the parameters.
pub record Settings (F : Type 0) : Type 0 where
  pub config : Config F
  pub home_pose : Option (PoseStamped F)
  pub keys_topic : String
  pub command_topic : String
  pub observation_topic : String
  pub joint_state_topic : String
  pub servo_command_topic : String
  pub home_trajectory_action : String
  pub controller_manager_prefix : List ℕ
  pub servo_node_prefix : List ℕ
  pub servo_seed_publish_period_s : F

module _ {F : Type 0} ⦃fl : Floats F⦄ where
  abbrev pub declarations : Declarations F
  declarations =
      ("keys_topic", string_value "/unity/teleop/keys")
      ∷ ("publish_rate", double_value (fl.decimal (pos 500) 1))
      ∷ ("command_topic", string_value "/teleop/command")
      ∷ ("robot_name", string_value "")
      ∷ ("frame_id", string_value "base_link")
      ∷ ("linear_step", double_value (fl.decimal (pos 50) 1))
      ∷ ("angular_step", double_value (fl.decimal (pos 20) 1))
      ∷ ("enable", bool_value true)
      ∷ ("observation_topic", string_value "/teleop/observation")
      ∷ ("current_pose_timeout_s", double_value (fl.decimal (pos 10) 1))
      ∷ ("home_position", unset_array)
      ∷ (
        "home_orientation_xyzw",
        double_array_value (
            fl.decimal (pos 0) 1
            ∷ fl.decimal (pos 0) 1
            ∷ fl.decimal (pos 0) 1
            ∷ fl.decimal (pos 10) 1
            ∷ []),
      )
      ∷ ("home_rpy", unset_array)
      ∷ (
        "home_joint_names",
        string_array_value (
            "shoulder_pan_joint" ∷ "shoulder_lift_joint" ∷ "elbow_joint" ∷ "wrist_1_joint"
            ∷ "wrist_2_joint" ∷ "wrist_3_joint" ∷ []),
      )
      ∷ (
        "home_joint_positions",
        double_array_value (
            fl.decimal (negsuc 156) 2
            ∷ fl.decimal (negsuc 156) 2
            ∷ fl.decimal (negsuc 156) 2
            ∷ fl.decimal (negsuc 156) 2
            ∷ fl.decimal (pos 157) 2
            ∷ fl.decimal (pos 0) 1
            ∷ []),
      )
      ∷ ("home_duration_s", double_value (fl.decimal (pos 30) 1))
      ∷ (
        "home_trajectory_action",
        string_value "/joint_trajectory_controller/follow_joint_trajectory",
      )
      ∷ ("controller_manager_prefix", string_value "/controller_manager")
      ∷ ("trajectory_controller", string_value "joint_trajectory_controller")
      ∷ ("servo_controller", string_value "forward_position_controller")
      ∷ ("switch_controller_timeout_s", double_value (fl.decimal (pos 20) 1))
      ∷ ("auto_switch_for_home", bool_value true)
      ∷ ("return_to_servo_after_home", bool_value false)
      ∷ ("joint_state_topic", string_value "/joint_states")
      ∷ ("servo_command_topic", string_value "/forward_position_controller/commands")
      ∷ ("seed_servo_on_switch", bool_value true)
      ∷ ("servo_seed_publish_count", integer_value (pos 5))
      ∷ ("servo_seed_publish_period_s", double_value (fl.decimal (pos 5) 2))
      ∷ ("manage_servo_node_on_switch", bool_value true)
      ∷ ("servo_node_prefix", string_value "/servo_node")
      ∷ []

  unfoldable pub configure : Declare F → Option (Settings F)
  configure declare_parameter = do
    ps ← declare_all declare_parameter declarations
    keys_topic ← as_text (lookup "keys_topic" ps)
    publish_rate ← as_real (lookup "publish_rate" ps)
    command_topic ← as_text (lookup "command_topic" ps)
    robot_name ← as_text (lookup "robot_name" ps)
    frame_id ← as_text (lookup "frame_id" ps)
    linear_step ← as_real (lookup "linear_step" ps)
    angular_step ← as_real (lookup "angular_step" ps)
    enable ← as_flag (lookup "enable" ps)
    observation_topic ← as_text (lookup "observation_topic" ps)
    current_pose_timeout_s ← as_real (lookup "current_pose_timeout_s" ps)
    home_position ← as_array (lookup "home_position" ps)
    home_orientation_xyzw ← as_array (lookup "home_orientation_xyzw" ps)
    home_rpy ← as_array (lookup "home_rpy" ps)
    home_joint_names ← as_texts (lookup "home_joint_names" ps)
    home_joint_positions ← as_array (lookup "home_joint_positions" ps)
    home_duration_s ← as_real (lookup "home_duration_s" ps)
    home_trajectory_action ← as_text (lookup "home_trajectory_action" ps)
    controller_manager_prefix ← as_text (lookup "controller_manager_prefix" ps)
    trajectory_controller ← as_text (lookup "trajectory_controller" ps)
    servo_controller ← as_text (lookup "servo_controller" ps)
    switch_controller_timeout_s ← as_real (lookup "switch_controller_timeout_s" ps)
    auto_switch_for_home ← as_flag (lookup "auto_switch_for_home" ps)
    return_to_servo_after_home ← as_flag (lookup "return_to_servo_after_home" ps)
    joint_state_topic ← as_text (lookup "joint_state_topic" ps)
    servo_command_topic ← as_text (lookup "servo_command_topic" ps)
    seed_servo_on_switch ← as_flag (lookup "seed_servo_on_switch" ps)
    servo_seed_publish_count ← as_whole (lookup "servo_seed_publish_count" ps)
    servo_seed_publish_period_s ← as_real (lookup "servo_seed_publish_period_s" ps)
    manage_servo_node_on_switch ← as_flag (lookup "manage_servo_node_on_switch" ps)
    servo_node_prefix ← as_text (lookup "servo_node_prefix" ps)
    some (record {
      config = record {
        robot_name = robot_name;
        frame_id = frame_id;
        linear_step = linear_step;
        angular_step = angular_step;
        enable = enable;
        current_pose_timeout_s = current_pose_timeout_s;
        home_joint_names = home_joint_names;
        home_joint_positions = double_array_parameter home_joint_positions;
        home_duration_s = home_duration_s;
        trajectory_controller = trajectory_controller;
        servo_controller = servo_controller;
        switch_controller_timeout_s = switch_controller_timeout_s;
        auto_switch_for_home = auto_switch_for_home;
        return_to_servo_after_home = return_to_servo_after_home;
        seed_servo_on_switch = seed_servo_on_switch;
        servo_seed_publish_count = servo_seed_publish_count;
        manage_servo_node_on_switch = manage_servo_node_on_switch;
        period = pos_part (
            duration
              (fl.div (fl.decimal (pos 10) 1) (fl_max publish_rate (fl.decimal (pos 10) 1))));
      };
      home_pose =
          make_home_pose frame_id (double_array_parameter home_position)
            (double_array_parameter home_rpy) home_orientation_xyzw;
      keys_topic = keys_topic;
      command_topic = command_topic;
      observation_topic = observation_topic;
      joint_state_topic = joint_state_topic;
      servo_command_topic = servo_command_topic;
      home_trajectory_action = home_trajectory_action;
      controller_manager_prefix = rstrip_slash (codes controller_manager_prefix);
      servo_node_prefix = rstrip_slash (codes servo_node_prefix);
      servo_seed_publish_period_s = servo_seed_publish_period_s;
    })

  -- The settings by the values of the parameters.
  abbrev pub asked : Declare F → Settings F
  asked declare_parameter =
      let keys_topic : String = chosen_text declare_parameter "keys_topic" "/unity/teleop/keys" in
      let publish_rate : F =
        chosen_real declare_parameter "publish_rate" (fl.decimal (pos 500) 1) in
      let command_topic : String =
        chosen_text declare_parameter "command_topic" "/teleop/command" in
      let robot_name : String = chosen_text declare_parameter "robot_name" "" in
      let frame_id : String = chosen_text declare_parameter "frame_id" "base_link" in
      let linear_step : F = chosen_real declare_parameter "linear_step" (fl.decimal (pos 50) 1) in
      let angular_step : F = chosen_real declare_parameter "angular_step" (fl.decimal (pos 20) 1) in
      let enable : Bool = chosen_flag declare_parameter "enable" true in
      let observation_topic : String =
        chosen_text declare_parameter "observation_topic" "/teleop/observation" in
      let current_pose_timeout_s : F =
        chosen_real declare_parameter "current_pose_timeout_s" (fl.decimal (pos 10) 1) in
      let home_position : Option (List F) = chosen_array declare_parameter "home_position" none in
      let home_orientation_xyzw : Option (List F) =
        chosen_array declare_parameter "home_orientation_xyzw" (
          some (
            fl.decimal (pos 0) 1
            ∷ fl.decimal (pos 0) 1
            ∷ fl.decimal (pos 0) 1
            ∷ fl.decimal (pos 10) 1
            ∷ [])) in
      let home_rpy : Option (List F) = chosen_array declare_parameter "home_rpy" none in
      let home_joint_names : List String = chosen_texts declare_parameter "home_joint_names" (
        "shoulder_pan_joint" ∷ "shoulder_lift_joint" ∷ "elbow_joint" ∷ "wrist_1_joint"
        ∷ "wrist_2_joint" ∷ "wrist_3_joint" ∷ []) in
      let home_joint_positions : Option (List F) =
        chosen_array declare_parameter "home_joint_positions" (
          some (
            fl.decimal (negsuc 156) 2
            ∷ fl.decimal (negsuc 156) 2
            ∷ fl.decimal (negsuc 156) 2
            ∷ fl.decimal (negsuc 156) 2
            ∷ fl.decimal (pos 157) 2
            ∷ fl.decimal (pos 0) 1
            ∷ [])) in
      let home_duration_s : F =
        chosen_real declare_parameter "home_duration_s" (fl.decimal (pos 30) 1) in
      let home_trajectory_action : String =
        chosen_text declare_parameter "home_trajectory_action"
          "/joint_trajectory_controller/follow_joint_trajectory" in
      let controller_manager_prefix : String =
        chosen_text declare_parameter "controller_manager_prefix" "/controller_manager" in
      let trajectory_controller : String =
        chosen_text declare_parameter "trajectory_controller" "joint_trajectory_controller" in
      let servo_controller : String =
        chosen_text declare_parameter "servo_controller" "forward_position_controller" in
      let switch_controller_timeout_s : F =
        chosen_real declare_parameter "switch_controller_timeout_s" (fl.decimal (pos 20) 1) in
      let auto_switch_for_home : Bool = chosen_flag declare_parameter "auto_switch_for_home" true in
      let return_to_servo_after_home : Bool =
        chosen_flag declare_parameter "return_to_servo_after_home" false in
      let joint_state_topic : String =
        chosen_text declare_parameter "joint_state_topic" "/joint_states" in
      let servo_command_topic : String =
        chosen_text declare_parameter "servo_command_topic"
          "/forward_position_controller/commands" in
      let seed_servo_on_switch : Bool = chosen_flag declare_parameter "seed_servo_on_switch" true in
      let servo_seed_publish_count : ℤ =
        chosen_whole declare_parameter "servo_seed_publish_count" (pos 5) in
      let servo_seed_publish_period_s : F =
        chosen_real declare_parameter "servo_seed_publish_period_s" (fl.decimal (pos 5) 2) in
      let manage_servo_node_on_switch : Bool =
        chosen_flag declare_parameter "manage_servo_node_on_switch" true in
      let servo_node_prefix : String =
        chosen_text declare_parameter "servo_node_prefix" "/servo_node" in
      record {
        config = record {
          robot_name = robot_name;
          frame_id = frame_id;
          linear_step = linear_step;
          angular_step = angular_step;
          enable = enable;
          current_pose_timeout_s = current_pose_timeout_s;
          home_joint_names = home_joint_names;
          home_joint_positions = double_array_parameter home_joint_positions;
          home_duration_s = home_duration_s;
          trajectory_controller = trajectory_controller;
          servo_controller = servo_controller;
          switch_controller_timeout_s = switch_controller_timeout_s;
          auto_switch_for_home = auto_switch_for_home;
          return_to_servo_after_home = return_to_servo_after_home;
          seed_servo_on_switch = seed_servo_on_switch;
          servo_seed_publish_count = servo_seed_publish_count;
          manage_servo_node_on_switch = manage_servo_node_on_switch;
          period = pos_part (
              duration
                (fl.div (fl.decimal (pos 10) 1) (fl_max publish_rate (fl.decimal (pos 10) 1))));
        };
        home_pose =
            make_home_pose frame_id (double_array_parameter home_position)
              (double_array_parameter home_rpy) home_orientation_xyzw;
        keys_topic = keys_topic;
        command_topic = command_topic;
        observation_topic = observation_topic;
        joint_state_topic = joint_state_topic;
        servo_command_topic = servo_command_topic;
        home_trajectory_action = home_trajectory_action;
        controller_manager_prefix = rstrip_slash (codes controller_manager_prefix);
        servo_node_prefix = rstrip_slash (codes servo_node_prefix);
        servo_seed_publish_period_s = servo_seed_publish_period_s;
      }

  pub configure_lem :
      (declare_parameter : Declare F)
      → KeepsType declare_parameter
      → Accepts declare_parameter declarations
      → configure declare_parameter ≡ some (asked declare_parameter)
  unfolding configure
  configure_lem declare_parameter typed h = rw (
    declare_all-Accepts declare_parameter declarations h,
    as_text-resolved declare_parameter typed declarations h "keys_topic" _ refl,
    as_real-resolved declare_parameter typed declarations h "publish_rate" _ refl,
    as_text-resolved declare_parameter typed declarations h "command_topic" _ refl,
    as_text-resolved declare_parameter typed declarations h "robot_name" _ refl,
    as_text-resolved declare_parameter typed declarations h "frame_id" _ refl,
    as_real-resolved declare_parameter typed declarations h "linear_step" _ refl,
    as_real-resolved declare_parameter typed declarations h "angular_step" _ refl,
    as_flag-resolved declare_parameter typed declarations h "enable" _ refl,
    as_text-resolved declare_parameter typed declarations h "observation_topic" _ refl,
    as_real-resolved declare_parameter typed declarations h "current_pose_timeout_s" _ refl,
    as_array-resolved declare_parameter typed declarations h "home_position" none refl,
    as_array-resolved declare_parameter typed declarations h "home_orientation_xyzw"
        (some (
          fl.decimal (pos 0) 1
          ∷ fl.decimal (pos 0) 1
          ∷ fl.decimal (pos 0) 1
          ∷ fl.decimal (pos 10) 1
          ∷ []))
        refl,
    as_array-resolved declare_parameter typed declarations h "home_rpy" none refl,
    as_texts-resolved declare_parameter typed declarations h "home_joint_names" _ refl,
    as_array-resolved declare_parameter typed declarations h "home_joint_positions"
        (some (
          fl.decimal (negsuc 156) 2
          ∷ fl.decimal (negsuc 156) 2
          ∷ fl.decimal (negsuc 156) 2
          ∷ fl.decimal (negsuc 156) 2
          ∷ fl.decimal (pos 157) 2
          ∷ fl.decimal (pos 0) 1
          ∷ []))
        refl,
    as_real-resolved declare_parameter typed declarations h "home_duration_s" _ refl,
    as_text-resolved declare_parameter typed declarations h "home_trajectory_action" _ refl,
    as_text-resolved declare_parameter typed declarations h "controller_manager_prefix" _ refl,
    as_text-resolved declare_parameter typed declarations h "trajectory_controller" _ refl,
    as_text-resolved declare_parameter typed declarations h "servo_controller" _ refl,
    as_real-resolved declare_parameter typed declarations h "switch_controller_timeout_s" _ refl,
    as_flag-resolved declare_parameter typed declarations h "auto_switch_for_home" _ refl,
    as_flag-resolved declare_parameter typed declarations h "return_to_servo_after_home" _ refl,
    as_text-resolved declare_parameter typed declarations h "joint_state_topic" _ refl,
    as_text-resolved declare_parameter typed declarations h "servo_command_topic" _ refl,
    as_flag-resolved declare_parameter typed declarations h "seed_servo_on_switch" _ refl,
    as_whole-resolved declare_parameter typed declarations h "servo_seed_publish_count" _ refl,
    as_real-resolved declare_parameter typed declarations h "servo_seed_publish_period_s" _ refl,
    as_flag-resolved declare_parameter typed declarations h "manage_servo_node_on_switch" _ refl,
    as_text-resolved declare_parameter typed declarations h "servo_node_prefix" _ refl,
  )
