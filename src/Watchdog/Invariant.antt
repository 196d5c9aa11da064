-- ===== src/Watchdog/Invariant.antt =====
-- The books that the watchdog keeps of its calls, and what holds between two callbacks.
use digital_twin_based_on_un.Common.{
  ℕ, ◌+◌, ◌≤◌, ◌≡◌, refl, Bool, true, false, List, [], ◌∷◌, Option, none, some, is_some, arith,
}
use digital_twin_based_on_un.Common.Int.{pos, pos_part, ◌≤ℤ◌}
use digital_twin_based_on_un.Watchdog.{
  Config, Watchdog, Readings, new, on_program_running, send_resend, resend_or_back_off,
  check_dropped, check_program, check, note_gate, on_resend_response,
}
use digital_twin_based_on_un.Watchdog.Traces.{Event, program, timer, response, step, sends, run}
use digital_twin_based_on_un.Watchdog.Resends.{sends-gate_log, sends-gate_log-append}

-- What a callback at `now` has written down, by whether it called the service.
abbrev pub Books : Bool → ℕ → Watchdog → Watchdog → Type 0
Books true now w w' =
    (w'.last_resend_time ≡ some now)
    × (w'.consecutive_resends ≡ w.consecutive_resends + 1)
    × (w'.resend_in_flight ≡ true)
Books false now w w' =
    (w'.last_resend_time ≡ w.last_resend_time)
    × (w'.consecutive_resends ≡ w.consecutive_resends)
    × (w'.resend_in_flight ≡ w.resend_in_flight)

module _ (cfg : Config) (available : Bool) (now : ℕ) (w : Watchdog) where
  resend_or_back_off-Books :
      let (w', out) = resend_or_back_off cfg available now w in Books (sends out) now w w'
  unfolding resend_or_back_off send_resend
  resend_or_back_off-Books = ground arith

  check_dropped-Books :
      (since : Option ℕ)
      → let (w', out) = check_dropped cfg available now since w in Books (sends out) now w w'
  unfolding check_dropped
  check_dropped-Books none = (refl, refl, refl)
  check_dropped-Books (some t) = ground (arith, resend_or_back_off-Books)

  check_program-Books :
      (running : Option Bool)
      → let (w', out) = check_program cfg available now running w in Books (sends out) now w w'
  unfolding check_program
  check_program-Books none = (refl, refl, refl)
  check_program-Books (some true) = (refl, refl, refl)
  check_program-Books (some false) = ground (arith, check_dropped-Books w.false_since)

pub check-Books :
    (cfg : Config) (r : Readings) (w : Watchdog)
    → let (w', out) = check cfg r w in Books (sends out) r.now w w'
unfolding check
check-Books cfg r w =
    let w' = note_gate cfg r w in
    ground (
      arith,
      sends-gate_log w'.control_active w.prev_control_active,
      sends-gate_log-append w'.control_active w.prev_control_active
          (check_program cfg r.available r.now w.last_running w').1,
      check_program-Books cfg r.available r.now w' w.last_running,
    )

-- The last message said that the program is down.
abbrev pub is_down : Option Bool → Bool
is_down (some false) = true
is_down _ = false

pub record IsValid (cfg : Config) (w : Watchdog) : Type 0 where
  -- No more calls in a row than the maximum, and the backoff is announced only there.
  pub limited : w.consecutive_resends ≤ pos_part cfg.max_consecutive_resends
  pub warned : w.backoff_warned ≡ true → cfg.max_consecutive_resends ≤ℤ pos w.consecutive_resends
  -- The time of the drop is known exactly while the program is known to be down.
  pub dropped : is_some w.false_since ≡ is_down w.last_running
  -- A running program has cleared the books.
  pub cleared :
      w.last_running ≡ some true → (w.consecutive_resends ≡ 0) × (w.backoff_warned ≡ false)
  pub gate_noted : w.control_active ≡ w.prev_control_active

module _ (cfg : Config) (available : Bool) (now : ℕ) (w : Watchdog) (v : IsValid cfg w) where
  resend_or_back_off-IsValid :
      w.last_running ≡ some false → IsValid cfg (resend_or_back_off cfg available now w).0
  unfolding resend_or_back_off send_resend
  resend_or_back_off-IsValid down = ground arith

  check_dropped-IsValid :
      (since : Option ℕ)
      → w.last_running ≡ some false
      → IsValid cfg (check_dropped cfg available now since w).0
  unfolding check_dropped
  check_dropped-IsValid none down = ground arith
  check_dropped-IsValid (some t) down = ground (arith, resend_or_back_off-IsValid down)

  check_program-IsValid : IsValid cfg (check_program cfg available now w.last_running w).0
  unfolding check_program
  check_program-IsValid = ground (arith, check_dropped-IsValid w.false_since)

note_gate-IsValid :
    (cfg : Config) (r : Readings) (w : Watchdog) → IsValid cfg w → IsValid cfg (note_gate cfg r w)
note_gate-IsValid cfg r w v = ground arith

check-IsValid :
    (cfg : Config) (r : Readings) (w : Watchdog) → IsValid cfg w → IsValid cfg (check cfg r w).0
unfolding check
check-IsValid cfg r w v = ground (
  arith,
  note_gate-IsValid cfg r w v,
  check_program-IsValid cfg r.available r.now (note_gate cfg r w) (note_gate-IsValid cfg r w v),
)

pub new-IsValid : (cfg : Config) → IsValid cfg new
unfolding new
new-IsValid cfg = ground arith

step-IsValid :
    (cfg : Config) (w : Watchdog) (e : Event) → IsValid cfg w → IsValid cfg (step cfg w e).0
unfolding step on_program_running on_resend_response
step-IsValid cfg w (program now true) v = ground arith
step-IsValid cfg w (program now false) v = ground arith
step-IsValid cfg w (timer r) v = check-IsValid cfg r w v
step-IsValid cfg w (response answer) v = ground arith

-- After any sequence of callbacks from a valid state the calls in a row are within the maximum,
-- the backoff is announced only there, the time of the drop is known exactly while the program is
-- known to be down, a running program has cleared the books, and the two records of the gate
-- agree.
pub run-IsValid :
    (cfg : Config) (w : Watchdog) (es : List Event) → IsValid cfg w → IsValid cfg (run cfg w es)
unfolding run
run-IsValid cfg w [] v = v
run-IsValid cfg w (e ∷ es) v = run-IsValid cfg (step cfg w e).0 es (step-IsValid cfg w e v)
