-- ===== src/Watchdog/Tests.antt =====
-- The watchdog over concrete callbacks, with the default parameters, and an instance of each
-- theorem.
use digital_twin_based_on_un.Common.{
  ℕ, ◌<◌, map, ◌+◌, ◌*◌, ◌≤◌, ◌≡◌, refl, ◌↔◌, true, false, List, [], ◌∷◌, ◌++◌, none, some, arith,
  if◌then◌else◌, length, count_if,
}
use digital_twin_based_on_un.Common.Int.{ℤ, pos}
use digital_twin_based_on_un.Watchdog.{
  Config, Readings, new, on_program_running, check, evaluate_control_gate, check_program,
  check_dropped, resend_or_back_off, send_resend, on_resend_response,
}
use digital_twin_based_on_un.Watchdog.Traces.{
  Event, program, timer, response, step, sends, calls, run, is_running, is_response,
}
use digital_twin_based_on_un.Watchdog.Resends.{MayResend, check-MayResend}
use digital_twin_based_on_un.Watchdog.Invariant.{IsValid, new-IsValid, run-IsValid}
use digital_twin_based_on_un.Watchdog.Gate.{gate_run, gate_run_debounced}
use digital_twin_based_on_un.Watchdog.Storm.{
  Spaced, calls-Spaced, length-calls-le, length-calls-le-responses,
}
use digital_twin_based_on_un.Watchdog.Revival.{length-calls-run}
use digital_twin_based_on_un.Topics.Samples.{arrives, arrives-KeepsLast}
use digital_twin_based_on_un.Params.Watchdog.{Settings, config_of}
use digital_twin_based_on_un.Common.Samples.{whole_floats}

abbrev second : ℕ
second = 1000000000

abbrev defaults : Config
defaults = record {
  gate_min_publishers = pos 1;
  gate_debounce = pos 1000000000;
  require_control_active = true;
  false_debounce = pos 1500000000;
  resend_cooldown = pos 5000000000;
  max_consecutive_resends = pos 5;
  enable = true;
}

abbrev at_second : ℕ → Event
at_second t = timer (record {
  publishers = pos 1;
  gate_now = t * 1000000000;
  now = t * 1000000000;
  available = true;
})

-- The program drops at 1 s; the node calls at 3 s, when the debounce is over, and again once the
-- answer has come and the cooldown is over.
abbrev drop : List Event
drop =
    program second false
    ∷ at_second 1
    ∷ at_second 2
    ∷ at_second 3
    ∷ at_second 4
    ∷ response (some true)
    ∷ at_second 7
    ∷ at_second 8
    ∷ []

calls-drop : calls defaults new drop ≡ 3 * second ∷ 8 * second ∷ []
unfolding calls step new on_program_running check evaluate_control_gate check_program check_dropped
    resend_or_back_off send_resend on_resend_response
calls-drop = refl

abbrev at_three : Readings
at_three = record { publishers = pos 1; gate_now = 3 * second; now = 3 * second; available = true }

check-MayResend_example :
    (sends (check defaults at_three new).1 ≡ true) ↔ MayResend defaults at_three new
check-MayResend_example = check-MayResend defaults at_three new

run-IsValid_example : IsValid defaults (run defaults new drop)
run-IsValid_example = run-IsValid defaults new drop (new-IsValid defaults)

calls-Spaced_example : Spaced (pos 5000000000) new.last_resend_time (calls defaults new drop)
calls-Spaced_example = calls-Spaced defaults new drop

length-calls-le_example :
    length (calls defaults new drop) + new.consecutive_resends ≤ 5 * (count_if is_running drop + 1)
unfolding new
length-calls-le_example = length-calls-le defaults new drop (omega arith)

length-calls-le-responses_example :
    length (calls defaults new drop)
    ≤ count_if is_response drop + (if new.resend_in_flight then 0 else 1)
length-calls-le-responses_example = length-calls-le-responses defaults new drop

gate_run_debounced_example :
    gate_run defaults none false
      ((pos 1, 0) ∷ (pos 0, second) ∷ (pos 1, 2 * second) ∷ (pos 1, 3 * second) ∷ [])
    ≡ (some (2 * second), true)
gate_run_debounced_example =
    gate_run_debounced defaults none false ((pos 1, 0) ∷ []) (pos 0) (pos 1) second (2 * second)
      ((pos 1, 3 * second) ∷ []) refl refl (refl, tt)

abbrev check_at : ℕ → Readings
check_at t = record {
  publishers = pos 1;
  gate_now = t * second;
  now = t * second;
  available = true;
}

abbrev settings : Settings ℤ
settings = record {
  program_running_topic = "/program";
  resend_service = "/resend";
  control_gate_topic = "/teleop/command";
  gate_min_publishers = pos 1;
  gate_debounce_s = pos 1000000000;
  require_control_active = true;
  false_debounce_s = pos 1500000000;
  resend_cooldown_s = pos 5000000000;
  max_consecutive_resends = pos 5;
  check_period_s = pos 1000000000;
  service_wait_timeout_s = pos 500000000;
  enable = true;
}

-- The program was down before the node, which hears of it at 1 s and again at 2 s; a publisher is
-- counted from 2 s on.
abbrev heard_late : List Event
heard_late = program second false ∷ timer (record (check_at 1) { publishers = pos 0 }) ∷ []

length-calls-run_example :
    0
    < length (
        calls
          (config_of settings)
          (run
            (config_of settings)
            new
            (heard_late ++ timer (check_at 2) ∷ program (2 * second) false ∷ []))
          (map timer (check_at 6 ∷ check_at 7 ∷ [])))
unfolding run step on_program_running check evaluate_control_gate new
length-calls-run_example =
    length-calls-run settings arrives arrives-KeepsLast
      (("/program", true) ∷ ("/program", false) ∷ ("/other", true) ∷ []) (("/program", false) ∷ [])
      heard_late (check_at 2) (program (2 * second) false ∷ []) (2 * second) (2 * second)
      (check_at 6 ∷ []) (check_at 7) refl refl (omega arith) (omega arith) (omega arith) refl
      (λ h. omega (arith, h)) (omega arith)
      (record {
        enabled = refl;
        active = omega arith;
        debounced = omega arith;
        cooled = omega arith;
        ready = refl;
      })
