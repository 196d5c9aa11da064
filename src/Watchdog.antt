-- ===== src/Watchdog.antt =====
-- The robot program watchdog: digital_twin_on_unity_and_ros2/digital_twin_on_unity_and_ros2/
-- command_bridges/robot_program_watchdog_ros2unity.py under the repository's src/.
-- A time is a clock reading in nanoseconds, and a difference of two is an integer, as in rclpy.
-- A handler takes the clock readings and the answers of the ROS graph that it asks for.
pub mod Traces
pub mod Invariant
pub mod Gate
pub mod Resends
pub mod Storm
pub mod Memory
pub mod Revival
mod Tests
use digital_twin_based_on_un.Common.{
  ℕ, ◌+◌, Bool, true, false, not, ◌||◌, ◌&&◌, ◌==◌, List, [], ◌∷◌, ◌++◌, Option, none, some,
  if◌then◌else◌, is_some, ltb,
}
use digital_twin_based_on_un.Common.Int.{ℤ, pos, sub_ℕ, ltb_ℤ, leb_ℤ}

-- The parameters that the handlers read; a `Duration(seconds=s)` is its nanoseconds.
pub record Config : Type 0 where
  pub gate_min_publishers : ℤ
  pub gate_debounce : ℤ
  pub require_control_active : Bool
  pub false_debounce : ℤ
  pub resend_cooldown : ℤ
  pub max_consecutive_resends : ℤ
  pub enable : Bool

pub record Watchdog : Type 0 where
  pub last_running : Option Bool
  pub false_since : Option ℕ
  pub last_resend_time : Option ℕ
  pub consecutive_resends : ℕ
  pub resend_in_flight : Bool
  pub control_active : Bool
  pub gate_active_since : Option ℕ
  pub prev_control_active : Bool
  pub backoff_warned : Bool

-- What a handler does besides changing the node: its log lines, and the service call.
pub data Effect : Type 0 where
  running_changed : Bool → Effect
  program_back online offline : Effect
  backing_off : ℕ → Effect
  service_missing : Effect
  resend : ℕ → Effect
  call_failed returned_false resend_ok : Effect

abbrev pub Handled : Type 0
Handled = Watchdog × List Effect

-- The state part of `__init__`.
unfoldable pub new : Watchdog
new = record {
  last_running = none;
  false_since = none;
  last_resend_time = none;
  consecutive_resends = 0;
  resend_in_flight = false;
  control_active = false;
  gate_active_since = none;
  prev_control_active = false;
  backoff_warned = false;
}

-- `running == self.last_running`, where None differs from both.
abbrev pub same_running : Bool → Option Bool → Bool
same_running running none = false
same_running true (some last) = last
same_running false (some last) = not last

-- `self.x is None` sets it to `now`.
abbrev pub or_now : Option ℕ → ℕ → ℕ
or_now none now = now
or_now (some t) now = t

-- `(now - t) < d`
abbrev pub sooner : ℕ → ℕ → ℤ → Bool
sooner now t d = ltb_ℤ (sub_ℕ now t) d

unfoldable pub on_program_running : Watchdog → ℕ → Bool → Handled
on_program_running w now running =
    let changed =
      if same_running running w.last_running then [] else running_changed running ∷ [] in
    if running
    then (
      record w {
        false_since = none;
        consecutive_resends = 0;
        backoff_warned = false;
        last_running = some true;
      },
      changed ++ (if ltb 0 w.consecutive_resends then program_back ∷ [] else []),
    )
    else (
      record w { false_since = some (or_now w.false_since now); last_running = some false },
      changed,
    )

-- `_evaluate_control_gate`: the new `_gate_active_since` and the answer, from the old one;
-- `publishers` is what `count_publishers` answers.
unfoldable pub evaluate_control_gate : Config → ℤ → ℕ → Option ℕ → Option ℕ × Bool
evaluate_control_gate cfg publishers now active_since =
    if not (leb_ℤ cfg.gate_min_publishers publishers)
    then (none, false)
    else let since = or_now active_since now in
      (some since, leb_ℤ cfg.gate_debounce (sub_ℕ now since))

-- `_send_resend`; `available` is what `wait_for_service` answers.
unfoldable pub send_resend : Bool → ℕ → Watchdog → Handled
send_resend available now w = if not available then (w, service_missing ∷ []) else (
  record w {
    last_resend_time = some now;
    consecutive_resends = w.consecutive_resends + 1;
    resend_in_flight = true;
  },
  resend (w.consecutive_resends + 1) ∷ [],
)

-- The part of `check` from the test of the cooldown on.
unfoldable pub resend_or_back_off : Config → Bool → ℕ → Watchdog → Handled
resend_or_back_off cfg available now w =
    if is_some w.last_resend_time && sooner now (or_now w.last_resend_time now) cfg.resend_cooldown
    then (w, [])
    else if leb_ℤ cfg.max_consecutive_resends (pos w.consecutive_resends)
    then if w.backoff_warned
      then (w, [])
      else (record w { backoff_warned = true }, backing_off w.consecutive_resends ∷ [])
    else send_resend available now w

-- The part of `check` from the test of `false_since` on.
unfoldable pub check_dropped : Config → Bool → ℕ → Option ℕ → Watchdog → Handled
check_dropped cfg available now none w = (record w { false_since = some now }, [])
check_dropped cfg available now (some since) w =
    if sooner now since cfg.false_debounce then (w, []) else resend_or_back_off cfg available now w

-- The part of `check` after the gate, where each early return leaves the node as it is.
unfoldable pub check_program : Config → Bool → ℕ → Option Bool → Watchdog → Handled
check_program cfg available now none w = (w, [])
check_program cfg available now (some true) w = (w, [])
check_program cfg available now (some false) w =
    if w.resend_in_flight then (w, []) else check_dropped cfg available now w.false_since w

-- The change of the gate that `check` logs.
abbrev pub gate_log : Bool → Bool → List Effect
gate_log true false = online ∷ []
gate_log false true = offline ∷ []
gate_log _ _ = []

-- What `check` asks for: the number of publishers, the clock for the gate and again for the
-- program, and whether the service is there.
pub record Readings : Type 0 where
  pub publishers : ℤ
  pub gate_now : ℕ
  pub now : ℕ
  pub available : Bool

-- The answer of the gate.
abbrev pub gate_open : Config → Readings → Watchdog → Bool
gate_open cfg r w = (evaluate_control_gate cfg r.publishers r.gate_now w.gate_active_since).1

-- The node once `check` has evaluated the gate and noted its answer.
abbrev pub note_gate : Config → Readings → Watchdog → Watchdog
note_gate cfg r w =
    let (since, control_active) =
      evaluate_control_gate cfg r.publishers r.gate_now w.gate_active_since in
    record w {
      gate_active_since = since;
      prev_control_active = control_active;
      control_active = control_active;
    }

-- The timer callback.
unfoldable pub check : Config → Readings → Watchdog → Handled
check cfg r w =
    let w' = note_gate cfg r w in
    let log = gate_log w'.control_active w.prev_control_active in
    if not cfg.enable || (cfg.require_control_active && not w'.control_active)
    then (w', log)
    else let (w'', rest) = check_program cfg r.available r.now w'.last_running w' in
      (w'', log ++ rest)

-- `_on_resend_response`: `none` for a call without a result, else the field `success`.
unfoldable pub on_resend_response : Watchdog → Option Bool → Handled
on_resend_response w response = (
  record w { resend_in_flight = false },
  (elim response [
    | none ↦ call_failed ∷ []
    | some success ↦ if success then resend_ok ∷ [] else returned_false ∷ []
  ]),
)
