-- ===== src/Servo.antt =====
-- The keyboard servo node: digital_twin_on_unity_and_ros2/digital_twin_on_unity_and_ros2/
-- command_bridges/keyboard_unity_servo_ros2unity.py under the repository's src/.
-- The node runs in a world: each time that it reads the clock, waits for a service or spins, one
-- moment passes, and the environment says, for each moment, what the clock reads, whether the
-- service is there, which callbacks run and what is answered. The trace lists what the node did
-- at its interfaces, with the answers, newest first. The log lines are left out.
pub mod Commands
pub mod Controllers
pub mod Home
pub mod Loop
pub mod Closed
pub mod Switching
pub mod Script
pub mod Toggling
pub mod Homing
pub mod Actions
pub mod Dispatch
pub mod Numbering
pub mod Gates
pub mod Queue
pub mod Records
pub mod Rate
pub mod Keyboard
mod Tests
use Prim.Native.String.{String}
use digital_twin_based_on_un.Common.{ℕ, suc, Bool, List, ◌∷◌, Option}
use digital_twin_based_on_un.Common.Int.{ℤ}
use digital_twin_based_on_un.Msgs.{PoseStamped, JointState, TeleopCommand}

pub data ControllerMode : Type 0 where
  unknown : ControllerMode
  trajectory : ControllerMode
  servo : ControllerMode

-- The parameters that the node keeps.
pub record Config (F : Type 0) : Type 0 where
  pub robot_name : String
  pub frame_id : String
  pub linear_step : F
  pub angular_step : F
  pub enable : Bool
  pub current_pose_timeout_s : F
  pub home_joint_names : List String
  pub home_joint_positions : List F
  pub home_duration_s : F
  pub trajectory_controller : String
  pub servo_controller : String
  pub switch_controller_timeout_s : F
  pub auto_switch_for_home : Bool
  pub return_to_servo_after_home : Bool
  pub seed_servo_on_switch : Bool
  pub servo_seed_publish_count : ℤ
  pub manage_servo_node_on_switch : Bool
  -- the period of the loop in nanoseconds
  pub period : ℕ

-- The fields of the node that change.
pub record Node (F : Type 0) : Type 0 where
  pub sequence_id : ℕ
  pub current_pose : Option (PoseStamped F)
  pub current_pose_time : Option ℕ
  pub zero_pose : Option (PoseStamped F)
  pub home_pose : Option (PoseStamped F)
  pub last_joint_state : Option (JointState F)
  pub held_keys : List ℕ
  pub pending_actions : List String

-- A message that a spin hands to the node; `observation` carries the clock reading that the
-- handler makes and the end-effector state of the message.
pub data Callback (F : Type 0) : Type 0 where
  keys : List ℕ → String → Callback F
  observation : ℕ → PoseStamped F → Callback F
  joint_state : JointState F → Callback F

-- What the node did. An answer is absent when the call had none in its time.
pub data Event (F : Type 0) : Type 0 where
  command : TeleopCommand F → Event F
  seed : List F → Event F
  listed : Option (List (String × String)) → Event F
  switched : List String → List String → ℤ × ℤ → Option Bool → Event F
  stopped : Option Bool → Event F
  started : Option Bool → Event F
  reset : Bool → Event F
  goal : List String → List F → ℤ × ℤ → Bool → Event F

pub record Moment (F : Type 0) : Type 0 where
  pub now : ℕ
  -- what `wait_for_service` returns
  pub ready : Bool
  pub delivered : List (Callback F)
  -- the answers of list_controllers, as names with states, of switch_controller (`ok`), of a
  -- Trigger service (`success`), of reset_servo_status, and of the action server
  pub controllers : Option (List (String × String))
  pub switch_ok : Option Bool
  pub success : Option Bool
  pub reset_done : Bool
  pub accepted : Bool

abbrev pub Env : Type 0 → Type 0
Env F = ℕ → Moment F

pub record World (F : Type 0) : Type 0 where
  pub node : Node F
  pub moment : ℕ
  pub trace : List (Event F)

module _ {F : Type 0} where
  -- One moment passes.
  unfoldable pub pass : World F → World F
  pass w = record w { moment = suc w.moment }

  unfoldable pub emit : Event F → World F → World F
  emit e w = record w { trace = e ∷ w.trace }
