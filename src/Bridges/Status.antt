-- ===== src/Bridges/Status.antt =====
-- The robot state bridge: ur_state_bridge_ros2unity.py. Of the driver's messages only the
-- fields read appear. The periods of the timers and the throttled warnings are left out.
use Prim.Native.String.{String}
use digital_twin_based_on_un.Common.{
  ℕ, Bool, true, false, ◌&&◌, not, List, [], ◌∷◌, Option, none, some, if◌then◌else◌,
}
use digital_twin_based_on_un.Common.Int.{ℤ, pos, negsuc, eqb_ℤ}
use digital_twin_based_on_un.Common.Floats.{Floats, fl_zero}
use digital_twin_based_on_un.Msgs.{Vector3, PoseStamped}

-- geometry_msgs/WrenchStamped
pub record WrenchStamped (F : Type 0) : Type 0 where
  pub stamp : ℕ
  pub frame_id : String
  pub force : Vector3 F
  pub torque : Vector3 F

-- digital_twin_interfaces/RobotStatusUnity
pub record RobotStatusUnity (F : Type 0) : Type 0 where
  pub stamp : ℕ
  pub robot_mode : ℤ
  pub robot_mode_label : String
  pub safety_mode : ℤ
  pub safety_mode_label : String
  pub robot_program_running : Bool
  pub robot_program_running_received : Bool
  pub speed_scaling : F

pub record StateBridge (F : Type 0) : Type 0 where
  pub latest_tcp_pose : Option (PoseStamped F)
  pub latest_wrench : Option (WrenchStamped F)
  pub robot_mode : ℤ
  pub safety_mode : ℤ
  pub robot_program_running : Bool
  pub robot_program_running_received : Bool
  pub program_unknown_logged : Bool
  pub speed_scaling : F

-- A message on one of the six topics subscribed.
pub data Input (F : Type 0) : Type 0 where
  tcp_pose : PoseStamped F → Input F
  mode_code : ℤ → Input F
  safety_code : ℤ → Input F
  program_running : Bool → Input F
  scaling : F → Input F
  wrench : WrenchStamped F → Input F

-- `labels.get(mode, "UNKNOWN")`
abbrev pub label_of : ℤ → List (ℤ × String) → String
label_of mode [] = "UNKNOWN"
label_of mode ((code, label) ∷ labels) = if eqb_ℤ mode code then label else label_of mode labels

-- The codes are those of ur_dashboard_msgs/RobotMode.
abbrev pub robot_mode_labels : List (ℤ × String)
robot_mode_labels =
    (negsuc 0, "NO_CONTROLLER")
    ∷ (pos 0, "DISCONNECTED")
    ∷ (pos 1, "CONFIRM_SAFETY")
    ∷ (pos 2, "BOOTING")
    ∷ (pos 3, "POWER_OFF")
    ∷ (pos 4, "POWER_ON")
    ∷ (pos 5, "IDLE")
    ∷ (pos 6, "BACKDRIVE")
    ∷ (pos 7, "RUNNING")
    ∷ (pos 8, "UPDATING_FIRMWARE")
    ∷ []

-- The codes are those of ur_dashboard_msgs/SafetyMode.
abbrev pub safety_mode_labels : List (ℤ × String)
safety_mode_labels =
    (pos 1, "NORMAL")
    ∷ (pos 2, "REDUCED")
    ∷ (pos 3, "PROTECTIVE_STOP")
    ∷ (pos 4, "RECOVERY")
    ∷ (pos 5, "SAFEGUARD_STOP")
    ∷ (pos 6, "SYSTEM_EMERGENCY_STOP")
    ∷ (pos 7, "ROBOT_EMERGENCY_STOP")
    ∷ (pos 8, "VIOLATION")
    ∷ (pos 9, "FAULT")
    ∷ (pos 10, "VALIDATE_JOINT_ID")
    ∷ (pos 11, "UNDEFINED_SAFETY_MODE")
    ∷ (pos 12, "AUTOMATIC_MODE_SAFEGUARD_STOP")
    ∷ (pos 13, "SYSTEM_THREE_POSITION_ENABLING_STOP")
    ∷ []

unfoldable pub robot_mode_label : ℤ → String
robot_mode_label mode = label_of mode robot_mode_labels

unfoldable pub safety_mode_label : ℤ → String
safety_mode_label mode = label_of mode safety_mode_labels

module _ {F : Type 0} where
  -- The six callbacks.
  unfoldable pub receive : Input F → StateBridge F → StateBridge F
  receive (tcp_pose msg) b = record b { latest_tcp_pose = some msg }
  receive (mode_code code) b = record b { robot_mode = code }
  receive (safety_code code) b = record b { safety_mode = code }
  receive (program_running running) b = record b {
    robot_program_running = running;
    robot_program_running_received = true;
  }
  receive (scaling factor) b = record b { speed_scaling = factor }
  receive (wrench msg) b = record b { latest_wrench = some msg }

  -- `publish_robot_status`: the bridge, the message, and whether it logs that no program is known.
  unfoldable pub publish_robot_status :
      ℕ → StateBridge F → StateBridge F × RobotStatusUnity F × Bool
  publish_robot_status now b =
      let logs = not b.robot_program_running_received && not b.program_unknown_logged in
      (
        (if logs then record b { program_unknown_logged = true } else b),
        record {
          stamp = now;
          robot_mode = b.robot_mode;
          robot_mode_label = robot_mode_label b.robot_mode;
          safety_mode = b.safety_mode;
          safety_mode_label = safety_mode_label b.safety_mode;
          robot_program_running = b.robot_program_running;
          robot_program_running_received = b.robot_program_running_received;
          speed_scaling = b.speed_scaling;
        },
        logs,
      )

module _ {F : Type 0} ⦃fl : Floats F⦄ where
  unfoldable pub new_bridge : StateBridge F
  new_bridge = record {
    latest_tcp_pose = none;
    latest_wrench = none;
    robot_mode = negsuc 0;
    safety_mode = pos 0;
    robot_program_running = false;
    robot_program_running_received = false;
    program_unknown_logged = false;
    speed_scaling = fl_zero;
  }

  -- The pose that `publish_tcp_pose` publishes, with what the clock reads.
  unfoldable pub published_pose : ℕ → Option (PoseStamped F) → PoseStamped F
  published_pose now none = record {
    stamp = now;
    frame_id = "";
    position = (fl_zero, fl_zero, fl_zero);
    orientation = (fl_zero, fl_zero, fl_zero, fl.of_int (pos 1));
  }
  published_pose now (some msg) = msg

  unfoldable pub publish_tcp_pose : ℕ → StateBridge F → PoseStamped F
  publish_tcp_pose now b = published_pose now b.latest_tcp_pose

  unfoldable pub published_wrench : ℕ → Option (WrenchStamped F) → WrenchStamped F
  published_wrench now none = record {
    stamp = now;
    frame_id = "";
    force = (fl_zero, fl_zero, fl_zero);
    torque = (fl_zero, fl_zero, fl_zero);
  }
  published_wrench now (some msg) = msg

  unfoldable pub publish_wrench : ℕ → StateBridge F → WrenchStamped F
  publish_wrench now b = published_wrench now b.latest_wrench
