-- ===== src/Watchdog/Gate.antt =====
-- The control gate over a series of checks: a debounced rising edge.
use digital_twin_based_on_un.Common.{
  ℕ, ◌≡◌, refl, Bool, true, false, List, [], ◌∷◌, ◌++◌, Option, none, some, arith, All,
}
use digital_twin_based_on_un.Common.Int.{ℤ, leb_ℤ, sub_ℕ}
use digital_twin_based_on_un.Watchdog.{Config, evaluate_control_gate}

-- A check of the gate: the publishers counted, and the clock reading.
abbrev pub Reading : Type 0
Reading = ℤ × ℕ

-- The answer of the last check, and the state after it.
unfoldable pub gate_run : Config → Option ℕ → Bool → List Reading → Option ℕ × Bool
gate_run cfg since answer [] = (since, answer)
gate_run cfg since answer ((publishers, now) ∷ rs) =
    let (since', answer') = evaluate_control_gate cfg publishers now since in
    gate_run cfg since' answer' rs

abbrev pub last_time : ℕ → List Reading → ℕ
last_time t [] = t
last_time t ((publishers, now) ∷ rs) = last_time now rs

-- Enough publishers are on the command topic.
abbrev pub IsOnline : Config → Reading → Type 0
IsOnline cfg (publishers, now) = leb_ℤ cfg.gate_min_publishers publishers ≡ true

evaluate_online :
    (cfg : Config) (publishers : ℤ) (now first : ℕ)
    → IsOnline cfg (publishers, now)
    → evaluate_control_gate cfg publishers now (some first)
      ≡ (some first, leb_ℤ cfg.gate_debounce (sub_ℕ now first))
unfolding evaluate_control_gate
evaluate_online cfg publishers now first h = ground arith

evaluate_offline :
    (cfg : Config) (publishers : ℤ) (now : ℕ) (since : Option ℕ)
    → leb_ℤ cfg.gate_min_publishers publishers ≡ false
    → evaluate_control_gate cfg publishers now since ≡ (none, false)
unfolding evaluate_control_gate
evaluate_offline cfg publishers now since h = ground arith

evaluate_first :
    (cfg : Config) (publishers : ℤ) (now : ℕ)
    → IsOnline cfg (publishers, now)
    → evaluate_control_gate cfg publishers now none
      ≡ (some now, leb_ℤ cfg.gate_debounce (sub_ℕ now now))
unfolding evaluate_control_gate
evaluate_first cfg publishers now h = ground arith

gate_run_online :
    (cfg : Config) (first t : ℕ) (rs : List Reading)
    → All (IsOnline cfg) rs
    → gate_run cfg (some first) (leb_ℤ cfg.gate_debounce (sub_ℕ t first)) rs
      ≡ (some first, leb_ℤ cfg.gate_debounce (sub_ℕ (last_time t rs) first))
unfolding gate_run
gate_run_online cfg first t [] h = refl
gate_run_online cfg first t ((publishers, now) ∷ rs) h =
    rw (evaluate_online cfg publishers now first h.0) (gate_run_online cfg first now rs h.1)

-- Whatever came before, after a check without enough publishers and in an unbroken series of
-- checks with enough of them, the gate is open at the last exactly when the debounce has passed
-- since the first of the series.
pub gate_run_debounced :
    (cfg : Config) (since : Option ℕ) (answer : Bool) (before : List Reading) (low high : ℤ)
    (t0 t1 : ℕ) (rest : List Reading)
    → leb_ℤ cfg.gate_min_publishers low ≡ false
    → leb_ℤ cfg.gate_min_publishers high ≡ true
    → All (IsOnline cfg) rest
    → gate_run cfg since answer (before ++ ((low, t0) ∷ (high, t1) ∷ rest))
      ≡ (some t1, leb_ℤ cfg.gate_debounce (sub_ℕ (last_time t1 rest) t1))
unfolding gate_run
gate_run_debounced cfg since answer [] low high t0 t1 rest off on h =
    rw (gate_run, evaluate_offline cfg low t0 since off, evaluate_first cfg high t1 on)
      (gate_run_online cfg t1 t1 rest h)
gate_run_debounced cfg since answer ((p, t) ∷ before) low high t0 t1 rest off on h =
    let (since', answer') = evaluate_control_gate cfg p t since in
    gate_run_debounced cfg since' answer' before low high t0 t1 rest off on h
