-- ===== src/Bridges/Mirrors.antt =====
-- The bridges that copy one message into another: command_supervisor_ros2unity.py of
-- command_bridges, io_states_bridge_ros2unity.py and tool_data_bridge_ros2unity.py. The
-- subscriptions of the supervisor stand in Observer.
use Prim.Native.String.{String}
use digital_twin_based_on_un.Common.{ℕ, Bool, List, [], ◌∷◌, map, ◌==◌, if◌then◌else◌}
use digital_twin_based_on_un.Msgs.{Vector3, TeleopCommand, TeleopStatus, mode_joint_velocity}

-- `labels.get(code, "UNKNOWN")`
abbrev pub label_of : ℕ → List (ℕ × String) → String
label_of code [] = "UNKNOWN"
label_of code ((known, label) ∷ labels) = if code == known then label else label_of code labels

abbrev pub mode_labels : List (ℕ × String)
mode_labels =
    (0, "IDLE")
    ∷ (1, "JOINT_POSITION")
    ∷ (2, "JOINT_VELOCITY")
    ∷ (3, "CARTESIAN_POSE")
    ∷ (4, "CARTESIAN_TWIST")
    ∷ (5, "GRIPPER")
    ∷ []

-- digital_twin_interfaces/CmdObservedUnity
pub record CmdObservedUnity (F : Type 0) : Type 0 where
  pub stamp : ℕ
  pub control_mode : ℕ
  pub control_mode_label : String
  pub enable : Bool
  pub emergency_stop : Bool
  pub command_frame : String
  pub joint_names : List String
  pub joint_values : List F
  pub twist_linear : Vector3 F
  pub twist_angular : Vector3 F

-- digital_twin_interfaces/CmdStatusUnity
pub record CmdStatusUnity (F : Type 0) : Type 0 where
  pub stamp : ℕ
  pub active_mode : ℕ
  pub active_mode_label : String
  pub enabled : Bool
  pub emergency_stop : Bool
  pub safety_ok : Bool
  pub input_alive : Bool
  pub command_timeout : Bool
  pub command_age : F
  pub error_code : ℕ
  pub last_stop_reason : String
  pub message : String

-- ur_msgs/ToolDataMsg and digital_twin_interfaces/ToolDataUnity
pub record ToolData (F : Type 0) : Type 0 where
  pub tool_voltage_48v : F
  pub tool_output_voltage : ℕ
  pub tool_current : F
  pub tool_temperature : F
  pub tool_mode : ℕ

pub record ToolDataUnity (F : Type 0) : Type 0 where
  pub stamp : ℕ
  pub tool_voltage_48v : F
  pub tool_output_voltage : ℕ
  pub tool_current : F
  pub tool_temperature : F
  pub tool_mode : ℕ
  pub tool_mode_label : String

abbrev pub tool_mode_labels : List (ℕ × String)
tool_mode_labels = (249, "BOOTLOADER") ∷ (253, "RUNNING") ∷ (255, "IDLE") ∷ []

-- ur_msgs/Digital and ur_msgs/Analog
pub record DigitalPin : Type 0 where
  pub pin : ℕ
  pub state : Bool

pub record AnalogPin (F : Type 0) : Type 0 where
  pub pin : ℕ
  pub domain : ℕ
  pub state : F

pub record IoStates (F : Type 0) : Type 0 where
  pub digital_in_states : List DigitalPin
  pub digital_out_states : List DigitalPin
  pub analog_in_states : List (AnalogPin F)
  pub analog_out_states : List (AnalogPin F)

pub record IoStatesUnity (F : Type 0) : Type 0 where
  pub stamp : ℕ
  pub digital_in_pins : List ℕ
  pub digital_in_states : List Bool
  pub digital_out_pins : List ℕ
  pub digital_out_states : List Bool
  pub analog_in_pins : List ℕ
  pub analog_in_values : List F
  pub analog_in_domains : List ℕ
  pub analog_out_pins : List ℕ
  pub analog_out_values : List F
  pub analog_out_domains : List ℕ

module _ {F : Type 0} where
  unfoldable pub command_callback : ℕ → TeleopCommand F → CmdObservedUnity F
  command_callback now msg = record {
    stamp = now;
    control_mode = msg.control_mode;
    control_mode_label = label_of msg.control_mode mode_labels;
    enable = msg.enable;
    emergency_stop = msg.emergency_stop;
    command_frame = msg.command_frame;
    joint_names = msg.joint_command.name;
    joint_values =
        if msg.control_mode == mode_joint_velocity
        then msg.joint_command.velocity
        else msg.joint_command.position;
    twist_linear = msg.target_twist.linear;
    twist_angular = msg.target_twist.angular;
  }

  unfoldable pub status_callback : ℕ → TeleopStatus F → CmdStatusUnity F
  status_callback now msg = record {
    stamp = now;
    active_mode = msg.active_mode;
    active_mode_label = label_of msg.active_mode mode_labels;
    enabled = msg.enabled;
    emergency_stop = msg.emergency_stop;
    safety_ok = msg.safety_ok;
    input_alive = msg.input_alive;
    command_timeout = msg.command_timeout;
    command_age = msg.command_age;
    error_code = msg.error_code;
    last_stop_reason = msg.last_stop_reason;
    message = msg.message;
  }

  unfoldable pub tool_data_callback : ℕ → ToolData F → ToolDataUnity F
  tool_data_callback now msg = record {
    stamp = now;
    tool_voltage_48v = msg.tool_voltage_48v;
    tool_output_voltage = msg.tool_output_voltage;
    tool_current = msg.tool_current;
    tool_temperature = msg.tool_temperature;
    tool_mode = msg.tool_mode;
    tool_mode_label = label_of msg.tool_mode tool_mode_labels;
  }

  unfoldable pub io_states_callback : ℕ → IoStates F → IoStatesUnity F
  io_states_callback now msg = record {
    stamp = now;
    digital_in_pins = map (λ (d : DigitalPin). d.pin) msg.digital_in_states;
    digital_in_states = map (λ (d : DigitalPin). d.state) msg.digital_in_states;
    digital_out_pins = map (λ (d : DigitalPin). d.pin) msg.digital_out_states;
    digital_out_states = map (λ (d : DigitalPin). d.state) msg.digital_out_states;
    analog_in_pins = map (λ (a : AnalogPin F). a.pin) msg.analog_in_states;
    analog_in_values = map (λ (a : AnalogPin F). a.state) msg.analog_in_states;
    analog_in_domains = map (λ (a : AnalogPin F). a.domain) msg.analog_in_states;
    analog_out_pins = map (λ (a : AnalogPin F). a.pin) msg.analog_out_states;
    analog_out_values = map (λ (a : AnalogPin F). a.state) msg.analog_out_states;
    analog_out_domains = map (λ (a : AnalogPin F). a.domain) msg.analog_out_states;
  }
