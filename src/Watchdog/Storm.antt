-- ===== src/Watchdog/Storm.antt =====
-- No storm of resends: how often the service is called over any sequence of callbacks.
use digital_twin_based_on_un.Common.{
  ℕ, ◌+◌, ◌*◌, ◌≤◌, ◌≡◌, inl, inr, true, false, List, [], ◌∷◌, Option, some, arith, if◌then◌else◌,
  Bool-cases, length, count_if,
}
use digital_twin_based_on_un.Common.Int.{ℤ, pos, pos_part, ◌≤ℤ◌}
use digital_twin_based_on_un.Watchdog.{Config, Watchdog, on_program_running, on_resend_response}
use digital_twin_based_on_un.Watchdog.Traces.{
  Event, program, timer, response, step, sends, calls, is_running, is_response, time_of,
}
use digital_twin_based_on_un.Watchdog.Resends.{HasCooled, check-MayResend}
use digital_twin_based_on_un.Watchdog.Invariant.{check-Books}

-- Each time is at least `d` after the one before it, the first after `last`.
abbrev pub Spaced : ℤ → Option ℕ → List ℕ → Type 0
Spaced d last [] = Unit {0}
Spaced d last (t ∷ ts) = HasCooled d t last × Spaced d (some t) ts

module _ (cfg : Config) where
  -- A callback that calls the service.
  record Called (w : Watchdog) (e : Event) : Type 0 where
    cooled : HasCooled cfg.resend_cooldown (time_of e) w.last_resend_time
    settled : w.resend_in_flight ≡ false
    under : ¬ (cfg.max_consecutive_resends ≤ℤ pos w.consecutive_resends)
    timed : (step cfg w e).0.last_resend_time ≡ some (time_of e)
    counted : (step cfg w e).0.consecutive_resends ≡ w.consecutive_resends + 1
    in_flight : (step cfg w e).0.resend_in_flight ≡ true
    is_timer : (is_running e ≡ false) × (is_response e ≡ false)

  -- A callback that does not.
  record Uncalled (w : Watchdog) (e : Event) : Type 0 where
    timed : (step cfg w e).0.last_resend_time ≡ w.last_resend_time
    counted :
        (step cfg w e).0.consecutive_resends ≡ (if is_running e then 0 else w.consecutive_resends)
    in_flight :
        (step cfg w e).0.resend_in_flight ≡ (if is_response e then false else w.resend_in_flight)

  step-Called : (w : Watchdog) (e : Event) → sends (step cfg w e).1 ≡ true → Called w e
  unfolding step on_program_running on_resend_response
  step-Called w (program now running) h = ground arith
  step-Called w (timer r) h = ground (arith, (check-MayResend cfg r w).0 h, check-Books cfg r w)
  step-Called w (response answer) h = ground arith

  step-Uncalled : (w : Watchdog) (e : Event) → sends (step cfg w e).1 ≡ false → Uncalled w e
  unfolding step on_program_running on_resend_response
  step-Uncalled w (program now running) h = ground arith
  step-Uncalled w (timer r) h = ground (arith, check-Books cfg r w)
  step-Uncalled w (response answer) h = ground arith

  -- Over any sequence of callbacks, whatever the clock reads, two calls of the resend service are
  -- at least the cooldown apart, and so is the first from the last call before.
  pub calls-Spaced :
      (w : Watchdog) (es : List Event)
      → Spaced cfg.resend_cooldown w.last_resend_time (calls cfg w es)
  unfolding calls
  calls-Spaced w [] = tt
  calls-Spaced w (e ∷ es) = elim (Bool-cases (sends (step cfg w e).1)) [
    | inl sent ↦
        let c = step-Called w e sent in
        rw sent (c.cooled, rw c.timed at (calls-Spaced (step cfg w e).0 es))
    | inr not_sent ↦
        rw not_sent (rw (step-Uncalled w e not_sent).timed at (calls-Spaced (step cfg w e).0 es))
  ]

  -- From a state within the maximum, over any sequence of callbacks, the calls in a row so far and
  -- those to come are no more than the maximum times one more than the messages that say the
  -- program runs.
  pub length-calls-le :
      (w : Watchdog) (es : List Event)
      → w.consecutive_resends ≤ pos_part cfg.max_consecutive_resends
      → length (calls cfg w es) + w.consecutive_resends
        ≤ pos_part cfg.max_consecutive_resends * (count_if is_running es + 1)
  unfolding calls
  length-calls-le w [] h = omega arith
  length-calls-le w (e ∷ es) h = elim (Bool-cases (sends (step cfg w e).1)) [
    | inl sent ↦ ground (arith, step-Called w e sent, length-calls-le (step cfg w e).0 es)
    | inr not_sent ↦ ground (arith, step-Uncalled w e not_sent, length-calls-le (step cfg w e).0 es)
  ]

  -- Over any sequence of callbacks the calls of the resend service are no more than the answers
  -- that arrive, and one more if none was in flight at the start.
  pub length-calls-le-responses :
      (w : Watchdog) (es : List Event)
      → length (calls cfg w es) ≤ count_if is_response es + (if w.resend_in_flight then 0 else 1)
  unfolding calls
  length-calls-le-responses w [] = omega arith
  length-calls-le-responses w (e ∷ es) = elim (Bool-cases (sends (step cfg w e).1)) [
    | inl sent ↦ ground (arith, step-Called w e sent, length-calls-le-responses (step cfg w e).0 es)
    | inr not_sent ↦
        ground (arith, step-Uncalled w e not_sent, length-calls-le-responses (step cfg w e).0 es)
  ]
