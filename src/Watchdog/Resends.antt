-- ===== src/Watchdog/Resends.antt =====
-- When `check` calls the resend service.
use digital_twin_based_on_un.Common.{
  ℕ, ◌≡◌, refl, ◌↔◌, Bool, true, false, List, [], ◌∷◌, ◌++◌, Option, none, some, arith,
  if◌then◌else◌,
}
use digital_twin_based_on_un.Common.Int.{ℤ, pos, ◌≤ℤ◌, sub_ℕ}
use digital_twin_based_on_un.Watchdog.{
  Config, Watchdog, Effect, Readings, send_resend, resend_or_back_off, check_dropped, check_program,
  check, gate_log, gate_open, note_gate,
}
use digital_twin_based_on_un.Watchdog.Traces.{sends}

-- At least `d` has passed at `now` since a time that is known.
abbrev pub HasPassed : ℤ → ℕ → Option ℕ → Type 0
HasPassed d now none = ⊥
HasPassed d now (some t) = d ≤ℤ sub_ℕ now t

-- At least `d` has passed at `now` since the time, if there is one.
abbrev pub HasCooled : ℤ → ℕ → Option ℕ → Type 0
HasCooled d now none = Unit {0}
HasCooled d now (some t) = d ≤ℤ sub_ℕ now t

-- The conditions under which the node may revive the program.
pub record MayResend (cfg : Config) (r : Readings) (w : Watchdog) : Type 0 where
  pub enabled : cfg.enable ≡ true
  pub gated : cfg.require_control_active ≡ true → gate_open cfg r w ≡ true
  pub down : w.last_running ≡ some false
  pub settled : w.resend_in_flight ≡ false
  pub debounced : HasPassed cfg.false_debounce r.now w.false_since
  pub cooled : HasCooled cfg.resend_cooldown r.now w.last_resend_time
  pub under : ¬ (cfg.max_consecutive_resends ≤ℤ pos w.consecutive_resends)
  pub ready : r.available ≡ true

sends-append : (xs ys : List Effect) → sends (xs ++ ys) ≡ (if sends xs then true else sends ys)
sends-append [] ys = refl
sends-append (x ∷ xs) ys = ground (arith, sends-append xs ys)

pub sends-gate_log : (a b : Bool) → sends (gate_log a b) ≡ false
sends-gate_log true true = refl
sends-gate_log true false = refl
sends-gate_log false true = refl
sends-gate_log false false = refl

-- The gate alone never calls the service.
pub sends-gate_log-append :
    (a b : Bool) (out : List Effect) → sends (gate_log a b ++ out) ≡ sends out
sends-gate_log-append a b out = rw (sends-append (gate_log a b) out, sends-gate_log a b)

module _ (cfg : Config) (available : Bool) (now : ℕ) (w : Watchdog) where
  -- The conditions that remain when the debounce is over.
  record IsUnlocked : Type 0 where
    cooled : HasCooled cfg.resend_cooldown now w.last_resend_time
    under : ¬ (cfg.max_consecutive_resends ≤ℤ pos w.consecutive_resends)
    ready : available ≡ true

  sends-resend_or_back_off : (sends (resend_or_back_off cfg available now w).1 ≡ true) ↔ IsUnlocked
  unfolding resend_or_back_off send_resend
  sends-resend_or_back_off = (λ h. ground arith, λ h. ground arith)

  sends-check_dropped :
      (since : Option ℕ)
      → (sends (check_dropped cfg available now since w).1 ≡ true)
        ↔ (HasPassed cfg.false_debounce now since × IsUnlocked)
  unfolding check_dropped
  sends-check_dropped none = (λ h. cc, λ h. absurd h.0)
  sends-check_dropped (some t) =
      (λ h. ground (arith, sends-resend_or_back_off), λ h. ground (arith, sends-resend_or_back_off))

  sends-check_program :
      (running : Option Bool)
      → (sends (check_program cfg available now running w).1 ≡ true) ↔ (
          (running ≡ some false)
          × (w.resend_in_flight ≡ false)
          × HasPassed cfg.false_debounce now w.false_since
          × IsUnlocked)
  unfolding check_program
  sends-check_program none = (λ h. cc, λ h. cc (h.0))
  sends-check_program (some true) = (λ h. cc, λ h. cc (h.0))
  sends-check_program (some false) = (
    λ h. ground (arith, sends-check_dropped w.false_since),
    λ h. ground (arith, sends-check_dropped w.false_since),
  )

-- `check` calls the resend service exactly when the node is enabled, the gate is open if control
-- is required, the program is known to be down and has been for the debounce, no call is in
-- flight, the cooldown since the last call is over, fewer calls than the maximum were made since
-- the program last ran, and the service is available.
pub check-MayResend :
    (cfg : Config) (r : Readings) (w : Watchdog)
    → (sends (check cfg r w).1 ≡ true) ↔ MayResend cfg r w
unfolding check
check-MayResend cfg r w =
    let w' = note_gate cfg r w in
    let quiet = sends-gate_log w'.control_active w.prev_control_active in
    let log =
      sends-gate_log-append w'.control_active w.prev_control_active
        (check_program cfg r.available r.now w.last_running w').1 in
    (
      λ h. ground (arith, sends-check_program cfg r.available r.now w' w.last_running, quiet, log),
      λ h. ground (arith, sends-check_program cfg r.available r.now w' w.last_running, log),
    )
