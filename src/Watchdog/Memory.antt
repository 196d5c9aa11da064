-- ===== src/Watchdog/Memory.antt =====
-- What the watchdog remembers over any sequence of callbacks.
use digital_twin_based_on_un.Common.{
  ℕ, ◌≤◌, ◌≡◌, ap, ◌∙◌, refl, Bool, true, false, List, [], ◌∷◌, ◌++◌, Option, none, some, arith,
  All, is_some,
}
use digital_twin_based_on_un.Common.Int.{◌≤ℤ◌}
use digital_twin_based_on_un.Topics.{final}
use digital_twin_based_on_un.Watchdog.{
  Config, Watchdog, Readings, evaluate_control_gate, on_program_running, on_resend_response,
  send_resend, resend_or_back_off, check_dropped, check_program, check, note_gate,
}
use digital_twin_based_on_un.Watchdog.Traces.{Event, program, timer, response, step, run}

-- What `check` leaves of a drop at `t0`: that the program is down, and since when.
pub record Kept (t0 : ℕ) (w w' : Watchdog) : Type 0 where
  pub running : w'.last_running ≡ w.last_running
  pub since : w.false_since ≡ some t0 → w'.false_since ≡ some t0
  pub gate : w'.gate_active_since ≡ w.gate_active_since

module _ (cfg : Config) (available : Bool) (now t0 : ℕ) (w : Watchdog) where
  resend_or_back_off-Kept : Kept t0 w (resend_or_back_off cfg available now w).0
  unfolding resend_or_back_off send_resend
  resend_or_back_off-Kept = record {
    running = ground arith;
    since = λ h. ground arith;
    gate = ground arith;
  }

  check_program-Kept :
      (running : Option Bool) → Kept t0 w (check_program cfg available now running w).0
  unfolding check_program check_dropped
  check_program-Kept running =
      let k = resend_or_back_off-Kept in
      record {
        running = ground (arith, k.running);
        since = λ h. ground (arith, k.since);
        gate = ground (arith, k.gate);
      }

pub check-Kept :
    (cfg : Config) (r : Readings) (t0 : ℕ) (w : Watchdog)
    → Kept t0 (note_gate cfg r w) (check cfg r w).0
unfolding check
check-Kept cfg r t0 w =
    let w' = note_gate cfg r w in
    let k = check_program-Kept cfg r.available r.now t0 w' w'.last_running in
    record {
      running = ground (arith, k.running);
      since = λ h. ground (arith, k.since);
      gate = ground (arith, k.gate);
    }

-- Not after a time, if there is one.
abbrev pub AtMost : ℕ → Option ℕ → Type 0
AtMost t none = Unit {0}
AtMost t (some x) = x ≤ t

-- The readings of an event for the program and for the gate, and the publishers that it counts.
abbrev pub Until : ℕ → Event → Type 0
Until t (program now running) = now ≤ t
Until t (timer r) = r.now ≤ t
Until t (response answer) = Unit {0}

abbrev pub GateUntil : ℕ → Event → Type 0
GateUntil g (timer r) = r.gate_now ≤ g
GateUntil g _ = Unit {0}

abbrev pub HasEnough : Config → Event → Type 0
HasEnough cfg (timer r) = cfg.gate_min_publishers ≤ℤ r.publishers
HasEnough cfg _ = Unit {0}

-- The messages among the callbacks.
abbrev pub heard : List Event → List Bool
heard [] = []
heard (program now running ∷ es) = running ∷ heard es
heard (timer r ∷ es) = heard es
heard (response answer ∷ es) = heard es

-- What the node knows of the program is the last message.
pub run-last_running :
    (cfg : Config) (w : Watchdog) (es : List Event)
    → (run cfg w es).last_running ≡ final w.last_running (heard es)
unfolding run step on_program_running on_resend_response
run-last_running cfg w [] = refl
run-last_running cfg w (program now true ∷ es) =
    run-last_running cfg (on_program_running w now true).0 es
run-last_running cfg w (program now false ∷ es) =
    run-last_running cfg (on_program_running w now false).0 es
run-last_running cfg w (timer r ∷ es) =
    run-last_running cfg (check cfg r w).0 es
    ∙ ap (λ o. final o (heard es)) (check-Kept cfg r 0 w).running
run-last_running cfg w (response answer ∷ es) =
    run-last_running cfg (on_resend_response w answer).0 es

-- The times that the node remembers of the program are not after `t`.
pub record IsPast (t : ℕ) (w : Watchdog) : Type 0 where
  pub dropped : AtMost t w.false_since
  pub resent : AtMost t w.last_resend_time

module _ (cfg : Config) (available : Bool) (now t : ℕ) (early : now ≤ t) (w : Watchdog)
    (p : IsPast t w) where
  resend_or_back_off-IsPast : IsPast t (resend_or_back_off cfg available now w).0
  unfolding resend_or_back_off send_resend
  resend_or_back_off-IsPast = ground arith

  check_program-IsPast :
      (running : Option Bool) → IsPast t (check_program cfg available now running w).0
  unfolding check_program check_dropped
  check_program-IsPast running = ground (arith, resend_or_back_off-IsPast)

step-IsPast :
    (cfg : Config) (t : ℕ) (w : Watchdog) (e : Event)
    → Until t e
    → IsPast t w
    → IsPast t (step cfg w e).0
unfolding step on_program_running on_resend_response check
step-IsPast cfg t w (program now true) early p = record { dropped = tt; resent = p.resent }
step-IsPast cfg t w (program now false) early p = ground arith
step-IsPast cfg t w (timer r) early p =
    let w' = note_gate cfg r w in
    let q : IsPast t w' = record { dropped = p.dropped; resent = p.resent } in
    ground (arith, check_program-IsPast cfg r.available r.now t early w' q w.last_running)
step-IsPast cfg t w (response answer) early p = record { dropped = p.dropped; resent = p.resent }

pub run-IsPast :
    (cfg : Config) (t : ℕ) (w : Watchdog) (es : List Event)
    → All (Until t) es
    → IsPast t w
    → IsPast t (run cfg w es)
unfolding run
run-IsPast cfg t w [] early p = p
run-IsPast cfg t w (e ∷ es) early p =
    run-IsPast cfg t (step cfg w e).0 es early.1 (step-IsPast cfg t w e early.0 p)

-- The gate has had enough publishers since some time, not after `g`.
step-gate_AtMost :
    (cfg : Config) (g : ℕ) (w : Watchdog) (e : Event)
    → GateUntil g e
    → AtMost g w.gate_active_since
    → AtMost g (step cfg w e).0.gate_active_since
unfolding step on_program_running on_resend_response evaluate_control_gate
step-gate_AtMost cfg g w (program now true) early p = p
step-gate_AtMost cfg g w (program now false) early p = p
step-gate_AtMost cfg g w (timer r) early p = rw (check-Kept cfg r 0 w).gate (ground arith)
step-gate_AtMost cfg g w (response answer) early p = p

-- The gate keeps the time since which there are enough publishers.
pub note_gate-since :
    (cfg : Config) (r : Readings) (g : ℕ) (w : Watchdog)
    → w.gate_active_since ≡ some g
    → cfg.gate_min_publishers ≤ℤ r.publishers
    → (note_gate cfg r w).gate_active_since ≡ some g
unfolding evaluate_control_gate
note_gate-since cfg r g w h many = ground arith

pub run-gate_since :
    (cfg : Config) (g : ℕ) (w : Watchdog) (es : List Event)
    → All (HasEnough cfg) es
    → w.gate_active_since ≡ some g
    → (run cfg w es).gate_active_since ≡ some g
unfolding run step on_program_running on_resend_response
run-gate_since cfg g w [] many h = h
run-gate_since cfg g w (program now true ∷ es) many h =
    run-gate_since cfg g (on_program_running w now true).0 es many.1 h
run-gate_since cfg g w (program now false ∷ es) many h =
    run-gate_since cfg g (on_program_running w now false).0 es many.1 h
run-gate_since cfg g w (timer r ∷ es) many h =
    run-gate_since cfg g (check cfg r w).0 es many.1
      ((check-Kept cfg r 0 w).gate ∙ note_gate-since cfg r g w h many.0)
run-gate_since cfg g w (response answer ∷ es) many h =
    run-gate_since cfg g (on_resend_response w answer).0 es many.1 h

-- After a check with enough publishers the gate has a time.
pub check-gate_is_some :
    (cfg : Config) (r : Readings) (w : Watchdog)
    → cfg.gate_min_publishers ≤ℤ r.publishers
    → is_some (check cfg r w).0.gate_active_since ≡ true
unfolding evaluate_control_gate
check-gate_is_some cfg r w many = rw (check-Kept cfg r 0 w).gate (ground arith)

pub known-AtMost :
    (t : ℕ) (o : Option ℕ) → is_some o ≡ true → AtMost t o → (s : ℕ) × (o ≡ some s) × (s ≤ t)
known-AtMost t none known early = absurd (cc known)
known-AtMost t (some s) known early = (s, refl, early)

-- Since a check with enough publishers the gate keeps its time, while there are enough.
pub run-gate_known :
    (cfg : Config) (g : ℕ) (w : Watchdog) (es : List Event) (q : Readings) (later : List Event)
    → AtMost g w.gate_active_since
    → All (GateUntil g) (es ++ timer q ∷ [])
    → All (HasEnough cfg) (timer q ∷ later)
    → (a : ℕ) × ((run cfg w (es ++ timer q ∷ later)).gate_active_since ≡ some a) × (a ≤ g)
unfolding run step
run-gate_known cfg g w [] q later past early enough =
    let w' = (check cfg q w).0 in
    let (a, active, earlier) =
      known-AtMost g w'.gate_active_since (check-gate_is_some cfg q w enough.0)
        (step-gate_AtMost cfg g w (timer q) early.0 past) in
    (a, run-gate_since cfg a w' later enough.1 active, earlier)
run-gate_known cfg g w (e ∷ es) q later past early enough =
    run-gate_known cfg g (step cfg w e).0 es q later (step-gate_AtMost cfg g w e early.0 past)
      early.1 enough
