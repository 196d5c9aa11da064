-- ===== src/Watchdog/Traces.antt =====
-- The watchdog under any sequence of callbacks.
use digital_twin_based_on_un.Common.{ℕ, Bool, true, false, List, [], ◌∷◌, Option, if◌then◌else◌}
use digital_twin_based_on_un.Watchdog.{
  Config, Watchdog, Effect, resend, Handled, Readings, on_program_running, check,
  on_resend_response,
}

pub data Event : Type 0 where
  program : ℕ → Bool → Event
  timer : Readings → Event
  response : Option Bool → Event

unfoldable pub step : Config → Watchdog → Event → Handled
step cfg w (program now running) = on_program_running w now running
step cfg w (timer r) = check cfg r w
step cfg w (response answer) = on_resend_response w answer

abbrev pub is_resend : Effect → Bool
is_resend (resend n) = true
is_resend _ = false

-- The event says that the program runs.
abbrev pub is_running : Event → Bool
is_running (program now running) = running
is_running _ = false

abbrev pub is_response : Event → Bool
is_response (response answer) = true
is_response _ = false

-- The clock reading of `check`; the other events send nothing.
abbrev pub time_of : Event → ℕ
time_of (program now running) = now
time_of (timer r) = r.now
time_of (response answer) = 0

-- Whether any effect is a call of the resend service.
abbrev pub sends : List Effect → Bool
sends [] = false
sends (e ∷ es) = if is_resend e then true else sends es

-- The times of the calls of the resend service over a sequence of events, in order.
unfoldable pub calls : Config → Watchdog → List Event → List ℕ
calls cfg w [] = []
calls cfg w (e ∷ es) =
    let (w', out) = step cfg w e in
    let rest = calls cfg w' es in if sends out then time_of e ∷ rest else rest

-- The node after all events.
unfoldable pub run : Config → Watchdog → List Event → Watchdog
run cfg w [] = w
run cfg w (e ∷ es) = run cfg (step cfg w e).0 es
