-- ===== src/Bridges/Latest.antt =====
-- The robot state bridge over a sequence of callbacks: its status and its log.
use digital_twin_based_on_un.Common.{
  ℕ, ◌+◌, ◌≤◌, ◌≡◌, refl, Bool, false, ◌||◌, List, [], ◌∷◌, Option, none, some, is_some,
  if◌then◌else◌, arith,
}
use digital_twin_based_on_un.Common.Int.{ℤ, pos, negsuc}
use digital_twin_based_on_un.Common.Floats.{Floats, fl_zero}
use digital_twin_based_on_un.Msgs.{PoseStamped}
use digital_twin_based_on_un.Bridges.Status.{
  WrenchStamped, StateBridge, Input, tcp_pose, mode_code, safety_code, program_running, scaling,
  wrench, receive, publish_robot_status, new_bridge,
}

abbrev pub or_default {ℓ} : {A : Type ℓ} → Option A → A → A
or_default none default = default
or_default (some a) default = a

abbrev pub truth : Option Bool → Bool
truth none = false
truth (some b) = b

-- A callback: a message received, or the status timer with what the clock reads.
pub data Event (F : Type 0) : Type 0 where
  input : Input F → Event F
  status_timer : ℕ → Event F

module _ {F : Type 0} where
  unfoldable pub step : Event F → StateBridge F → StateBridge F
  step (input i) b = receive i b
  step (status_timer now) b = (publish_robot_status now b).0

  unfoldable pub run : List (Event F) → StateBridge F → StateBridge F
  run [] b = b
  run (e ∷ es) b = run es (step e b)

  -- How often a callback logs that no program is known.
  unfoldable pub logs : List (Event F) → StateBridge F → ℕ
  logs [] b = 0
  logs (input i ∷ es) b = logs es (receive i b)
  logs (status_timer now ∷ es) b =
      (if (publish_robot_status now b).2 then 1 else 0) + logs es (publish_robot_status now b).0

  -- The last value that `read` finds in the inputs, after `default`.
  abbrev pub last {ℓ} : {A : Type ℓ} → (Input F → Option A) → A → List (Event F) → A
  last read default [] = default
  last read default (status_timer now ∷ es) = last read default es
  last read default (input i ∷ es) = last read (or_default (read i) default) es

  abbrev pub read_mode : Input F → Option ℤ
  read_mode (mode_code code) = some code
  read_mode (tcp_pose msg) = none
  read_mode (safety_code code) = none
  read_mode (program_running running) = none
  read_mode (scaling factor) = none
  read_mode (wrench msg) = none

  abbrev pub read_safety : Input F → Option ℤ
  read_safety (safety_code code) = some code
  read_safety (tcp_pose msg) = none
  read_safety (mode_code code) = none
  read_safety (program_running running) = none
  read_safety (scaling factor) = none
  read_safety (wrench msg) = none

  abbrev pub read_program : Input F → Option (Option Bool)
  read_program (program_running running) = some (some running)
  read_program (tcp_pose msg) = none
  read_program (mode_code code) = none
  read_program (safety_code code) = none
  read_program (scaling factor) = none
  read_program (wrench msg) = none

  abbrev pub read_pose : Input F → Option (Option (PoseStamped F))
  read_pose (tcp_pose msg) = some (some msg)
  read_pose (mode_code code) = none
  read_pose (safety_code code) = none
  read_pose (program_running running) = none
  read_pose (scaling factor) = none
  read_pose (wrench msg) = none

  abbrev pub read_scaling : Input F → Option F
  read_scaling (scaling factor) = some factor
  read_scaling (tcp_pose msg) = none
  read_scaling (mode_code code) = none
  read_scaling (safety_code code) = none
  read_scaling (program_running running) = none
  read_scaling (wrench msg) = none

  abbrev pub read_wrench : Input F → Option (Option (WrenchStamped F))
  read_wrench (wrench msg) = some (some msg)
  read_wrench (tcp_pose msg) = none
  read_wrench (mode_code code) = none
  read_wrench (safety_code code) = none
  read_wrench (program_running running) = none
  read_wrench (scaling factor) = none

  -- The bridge has kept the last of each.
  pub record Shows (code safe : ℤ) (program : Option Bool) (pose : Option (PoseStamped F))
      (factor : F) (force : Option (WrenchStamped F)) (b : StateBridge F) : Type 0 where
    pub robot_mode : b.robot_mode ≡ code
    pub safety_mode : b.safety_mode ≡ safe
    pub robot_program_running : b.robot_program_running ≡ truth program
    pub received : b.robot_program_running_received ≡ is_some program
    pub tcp_pose : b.latest_tcp_pose ≡ pose
    pub speed_scaling : b.speed_scaling ≡ factor
    pub wrench : b.latest_wrench ≡ force

  pub run-Shows :
      (es : List (Event F)) {code safe : ℤ} {program : Option Bool} {pose : Option (PoseStamped F)}
      {factor : F} {force : Option (WrenchStamped F)} (b : StateBridge F)
      → Shows code safe program pose factor force b
      → Shows
          (last read_mode code es)
          (last read_safety safe es)
          (last read_program program es)
          (last read_pose pose es)
          (last read_scaling factor es)
          (last read_wrench force es)
          (run es b)
  unfolding run step receive publish_robot_status
  run-Shows [] b h = h
  run-Shows (status_timer now ∷ es) b h = run-Shows es (step (status_timer now) b) (ground arith)
  run-Shows (input (tcp_pose msg) ∷ es) b h = run-Shows es {pose = some msg} _ (ground arith)
  run-Shows (input (mode_code new) ∷ es) b h = run-Shows es {code = new} _ (ground arith)
  run-Shows (input (safety_code new) ∷ es) b h = run-Shows es {safe = new} _ (ground arith)
  run-Shows (input (program_running new) ∷ es) b h =
      run-Shows es {program = some new} _ (ground arith)
  run-Shows (input (scaling new) ∷ es) b h = run-Shows es {factor = new} _ (ground arith)
  run-Shows (input (wrench msg) ∷ es) b h = run-Shows es {force = some msg} _ (ground arith)

  -- Over any sequence of callbacks the state bridge logs at most once that no program is known,
  -- and never once it has or a program state was received.
  logs-le :
      (es : List (Event F)) (b : StateBridge F)
      → logs es b ≤ (if b.robot_program_running_received || b.program_unknown_logged then 0 else 1)
  unfolding logs receive publish_robot_status
  logs-le [] b = omega arith
  logs-le (input (program_running new) ∷ es) b =
      ground (arith, logs-le es (receive (program_running new) b))
  logs-le (input (tcp_pose msg) ∷ es) b = logs-le es (receive (tcp_pose msg) b)
  logs-le (input (mode_code new) ∷ es) b = logs-le es (receive (mode_code new) b)
  logs-le (input (safety_code new) ∷ es) b = logs-le es (receive (safety_code new) b)
  logs-le (input (scaling factor) ∷ es) b = logs-le es (receive (scaling factor) b)
  logs-le (input (wrench msg) ∷ es) b = logs-le es (receive (wrench msg) b)
  logs-le (status_timer now ∷ es) b = ground (arith, logs-le es (publish_robot_status now b).0)

module _ {F : Type 0} ⦃fl : Floats F⦄ where
  pub new_bridge-Shows : Shows {F = F} (negsuc 0) (pos 0) none none fl_zero none new_bridge
  unfolding new_bridge
  new_bridge-Shows = record {
    robot_mode = refl;
    safety_mode = refl;
    robot_program_running = refl;
    received = refl;
    tcp_pose = refl;
    speed_scaling = refl;
    wrench = refl;
  }
