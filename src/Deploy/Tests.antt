-- ===== src/Deploy/Tests.antt =====
-- The executables of a concrete configuration.
use digital_twin_based_on_un.Common.{true}
use digital_twin_based_on_un.Common.Samples.{whole_floats}
use digital_twin_based_on_un.Manager.Nodes.{Config}

abbrev config : Config
config = record {
  ros_ip = "0.0.0.0";
  ros_tcp_port = "10000";
  respawn_permanent_nodes = true;
  robot_ip = "192.168.0.5";
  rtde_port = "30004";
  rtde_field = "target_moment";
  joint_torque_publish_rate_hz = "50.0";
  joint_torques_topic = "/joint_torques";
}
