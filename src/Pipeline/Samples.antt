-- ===== src/Pipeline/Samples.antt =====
-- The configuration of the servo node in the tests of the chains.
use digital_twin_based_on_un.Common.{true, false, []}
use digital_twin_based_on_un.Common.Int.{ℤ, pos}
use digital_twin_based_on_un.Servo.{Config}

abbrev pub config : Config ℤ
config = record {
  robot_name = "ur7e";
  frame_id = "base_link";
  linear_step = pos 5;
  angular_step = pos 2;
  enable = true;
  current_pose_timeout_s = pos 1000;
  home_joint_names = [];
  home_joint_positions = [];
  home_duration_s = pos 3;
  trajectory_controller = "trajectory";
  servo_controller = "servo";
  switch_controller_timeout_s = pos 2;
  auto_switch_for_home = true;
  return_to_servo_after_home = false;
  seed_servo_on_switch = true;
  servo_seed_publish_count = pos 2;
  manage_servo_node_on_switch = true;
  period = 20;
}
