-- ===== src/Bridges/Polls.antt =====
-- The bridges that poll a service: controller_status_bridge_ros2unity.py and
-- robot_info_bridge_ros2unity.py, and teleop_enable_bridge_ros2unity.py of command_bridges, which
-- forwards a toggle to one. The answer of a call that raised an exception is absent.
use Prim.Native.String.{String}
use text.Mathlib.Text.{◌==◌ as str_eq}
use digital_twin_based_on_un.Common.{
  ℕ, Bool, true, false, ◌||◌, not, List, map, Option, none, some, if◌then◌else◌,
}

-- digital_twin_interfaces/ControllerStatusUnity
pub record ControllerStatusUnity : Type 0 where
  pub stamp : ℕ
  pub names : List String
  pub states : List String

abbrev name_of : String × String → String
name_of (name, state) = name

abbrev state_of : String × String → String
state_of (name, state) = state

-- `poll_controllers`, of the flag `_pending`: the new flag, and whether it calls the service.
unfoldable pub poll_controllers : Bool → Bool → Bool × Bool
poll_controllers service_is_ready pending =
    if pending || not service_is_ready then (pending, false) else (true, true)

-- `_on_response`: the new flag, and the message published.
unfoldable pub on_controllers :
    ℕ → Option (List (String × String)) → Bool × Option ControllerStatusUnity
on_controllers now none = (false, none)
on_controllers now (some controllers) = (
  false,
  some (record { stamp = now; names = map name_of controllers; states = map state_of controllers }),
)

-- digital_twin_interfaces/RobotInfoUnity
pub record RobotInfoUnity : Type 0 where
  pub stamp : ℕ
  pub software_version : String
  pub loaded_program : String
  pub program_state : String

pub record RobotInfoBridge : Type 0 where
  pub software_version : String
  pub loaded_program : String
  pub program_state : String
  pub version_pending : Bool
  pub program_pending : Bool
  pub state_pending : Bool

unfoldable pub new_info : RobotInfoBridge
new_info = record {
  software_version = "UNKNOWN";
  loaded_program = "UNKNOWN";
  program_state = "UNKNOWN";
  version_pending = false;
  program_pending = false;
  state_pending = false;
}

unfoldable pub publish_current : ℕ → RobotInfoBridge → RobotInfoUnity
publish_current now b = record {
  stamp = now;
  software_version = b.software_version;
  loaded_program = b.loaded_program;
  program_state = b.program_state;
}

-- The three refreshes: the new bridge, and whether each calls its service.
unfoldable pub refresh_version : Bool → RobotInfoBridge → RobotInfoBridge × Bool
refresh_version service_is_ready b =
    if b.version_pending || not service_is_ready
    then (b, false)
    else (record b { version_pending = true }, true)

unfoldable pub refresh_program : Bool → RobotInfoBridge → RobotInfoBridge × Bool
refresh_program service_is_ready b =
    if b.program_pending || not service_is_ready
    then (b, false)
    else (record b { program_pending = true }, true)

unfoldable pub refresh_state : Bool → RobotInfoBridge → RobotInfoBridge × Bool
refresh_state service_is_ready b =
    if b.state_pending || not service_is_ready
    then (b, false)
    else (record b { state_pending = true }, true)

-- What `tick` publishes and calls, and the bridge after it.
pub record Ticked : Type 0 where
  pub bridge : RobotInfoBridge
  pub published : RobotInfoUnity
  pub version_called : Bool
  pub program_called : Bool
  pub state_called : Bool

unfoldable pub tick_info : ℕ → Bool → Bool → Bool → RobotInfoBridge → Ticked
tick_info now version_ready program_ready state_ready b =
    let (b₁, version_called) = refresh_version version_ready b in
    let (b₂, program_called) = refresh_program program_ready b₁ in
    let (b₃, state_called) = refresh_state state_ready b₂ in
    record {
      bridge = b₃;
      published = publish_current now b;
      version_called = version_called;
      program_called = program_called;
      state_called = state_called;
    }

abbrev pub or_text : String → String → String
or_text text default = if str_eq text "" then default else text

-- The three inner functions `done`; the version comes as the text that the f-string prints.
unfoldable pub version_done : Option String → RobotInfoBridge → RobotInfoBridge
version_done none b = record b { version_pending = false }
version_done (some version) b = record b { version_pending = false; software_version = version }

unfoldable pub program_done : Option String → RobotInfoBridge → RobotInfoBridge
program_done none b = record b { program_pending = false }
program_done (some program_name) b = record b {
  program_pending = false;
  loaded_program = or_text program_name "NONE";
}

unfoldable pub state_done : Option String → RobotInfoBridge → RobotInfoBridge
state_done none b = record b { state_pending = false }
state_done (some state) b = record b {
  state_pending = false;
  program_state = or_text state "UNKNOWN";
}

-- `on_enable` of the enable bridge: the request that it sends, if the service is there.
unfoldable pub on_enable : Bool → Bool → Option Bool
on_enable service_is_there enable = if service_is_there then some enable else none
