-- ===== src/Watchdog/Revival.antt =====
-- A program that is down is revived, also when it dropped before the watchdog was started. The
-- subscription is the one of `__init__` of robot_program_watchdog_ros2unity.py.
use Prim.Native.String.{String}
use digital_twin_based_on_un.Common.{
  ℕ, ◌<◌, ◌≤◌, ◌≡◌, sym, ap, ◌∙◌, refl, inl, inr, Bool, true, false, List, [], ◌∷◌, ◌++◌, map,
  Option, none, some, arith, Bool-cases, length, All,
}
use digital_twin_based_on_un.Common.Int.{ℤ, pos, ◌≤ℤ◌, sub_ℕ}
use digital_twin_based_on_un.Topics.{
  QosProfile, reliable, transient_local, Middleware, KeepsLast, final, on_topic, on_topic-append,
}
use digital_twin_based_on_un.Params.Watchdog.{Settings, config_of}
use digital_twin_based_on_un.Common.Floats.{Floats}
use digital_twin_based_on_un.Watchdog.{
  Config, Watchdog, Readings, new, evaluate_control_gate, check, gate_open,
}
use digital_twin_based_on_un.Watchdog.Traces.{Event, timer, step, run, sends, calls}
use digital_twin_based_on_un.Watchdog.Resends.{HasCooled, MayResend, check-MayResend}
use digital_twin_based_on_un.Watchdog.Invariant.{
  is_down, IsValid, new-IsValid, run-IsValid, check-Books,
}
use digital_twin_based_on_un.Watchdog.Memory.{
  check-Kept, note_gate-since, AtMost, Until, GateUntil, HasEnough, heard, run-last_running, IsPast,
  run-IsPast, known-AtMost, run-gate_known,
}

module _ {F : Type 0} where
  -- The subscription of `on_program_running`: its topic and quality of service.
  abbrev pub program_subscription : Settings F → String × QosProfile
  program_subscription s = (
    s.program_running_topic,
    record { depth = 1; reliability = reliable; durability = transient_local },
  )

gate_open-since :
    (cfg : Config) (r : Readings) (g : ℕ) (w : Watchdog)
    → w.gate_active_since ≡ some g
    → cfg.gate_min_publishers ≤ℤ r.publishers
    → cfg.gate_debounce ≤ℤ sub_ℕ r.gate_now g
    → gate_open cfg r w ≡ true
unfolding evaluate_control_gate
gate_open-since cfg r g w h many long = ground arith

-- At least as long since an earlier time.
sub_ℕ-earlier : (d : ℤ) (now : ℕ) {s t : ℕ} → s ≤ t → d ≤ℤ sub_ℕ now t → d ≤ℤ sub_ℕ now s
sub_ℕ-earlier d now early long = ground arith

HasCooled-earlier :
    (d : ℤ) (now t : ℕ) (last : Option ℕ) → AtMost t last → d ≤ℤ sub_ℕ now t → HasCooled d now last
HasCooled-earlier d now t none early long = tt
HasCooled-earlier d now t (some s) early long = sub_ℕ-earlier d now early long

-- A check at which the debounce of the gate, since `g`, and the debounce of the drop and the
-- cooldown, since `t`, are over.
pub record IsDue (cfg : Config) (g t : ℕ) (r : Readings) : Type 0 where
  pub enabled : cfg.enable ≡ true
  pub active : cfg.gate_debounce ≤ℤ sub_ℕ r.gate_now g
  pub debounced : cfg.false_debounce ≤ℤ sub_ℕ r.now t
  pub cooled : cfg.resend_cooldown ≤ℤ sub_ℕ r.now t
  pub ready : r.available ≡ true

module _ (cfg : Config) (g t : ℕ) where
  -- A node that may call once it is due: the program dropped and was last resent until `t`, and
  -- there have been enough publishers since `g` or before.
  record IsWaiting (w : Watchdog) : Type 0 where
    down : w.last_running ≡ some false
    settled : w.resend_in_flight ≡ false
    under : ¬ (cfg.max_consecutive_resends ≤ℤ pos w.consecutive_resends)
    last : AtMost t w.last_resend_time
    since : (s : ℕ) × (w.false_since ≡ some s) × (s ≤ t)
    gate : (s : ℕ) × (w.gate_active_since ≡ some s) × (s ≤ g)

  check-IsWaiting :
      (r : Readings) (w : Watchdog)
      → IsWaiting w
      → cfg.gate_min_publishers ≤ℤ r.publishers
      → sends (check cfg r w).1 ≡ false
      → IsWaiting (check cfg r w).0
  check-IsWaiting r w i many quiet =
      let (s, dropped, before) = i.since in
      let (a, active, earlier) = i.gate in
      let k = check-Kept cfg r s w in
      record {
        down = k.running ∙ i.down;
        settled = ground (arith, i.settled, check-Books cfg r w);
        under = ground (arith, i.under, check-Books cfg r w);
        last = ground (arith, i.last, check-Books cfg r w);
        since = (s, k.since dropped, before);
        gate = (a, k.gate ∙ note_gate-since cfg r a w active many, earlier);
      }

  IsDue-MayResend :
      (r : Readings) (w : Watchdog)
      → IsDue cfg g t r
      → cfg.gate_min_publishers ≤ℤ r.publishers
      → IsWaiting w
      → MayResend cfg r w
  IsDue-MayResend r w due many i =
      let (s, dropped, before) = i.since in
      let (a, active, earlier) = i.gate in
      record {
        enabled = due.enabled;
        gated = λ required.
            gate_open-since cfg r a w active many
              (sub_ℕ-earlier cfg.gate_debounce r.gate_now earlier due.active);
        down = i.down;
        settled = i.settled;
        debounced = rw dropped (sub_ℕ-earlier cfg.false_debounce r.now before due.debounced);
        cooled = HasCooled-earlier cfg.resend_cooldown r.now t w.last_resend_time i.last due.cooled;
        under = i.under;
        ready = due.ready;
      }

  -- Checks while the node waits, and then one at which every condition is met.
  waiting-calls :
      (rs : List Readings) (r : Readings) (w : Watchdog)
      → IsWaiting w
      → All (λ q. cfg.gate_min_publishers ≤ℤ q.publishers) (rs ++ r ∷ [])
      → IsDue cfg g t r
      → 0 < length (calls cfg w (map timer (rs ++ r ∷ [])))
  unfolding calls step
  waiting-calls [] r w i many due =
      rw ((check-MayResend cfg r w).1 (IsDue-MayResend r w due many.0 i)) (omega arith)
  waiting-calls (q ∷ rs) r w i many due = elim (Bool-cases (sends (check cfg q w).1)) [
    | inl sent ↦ rw sent (omega arith)
    | inr quiet ↦
        rw quiet
          (waiting-calls rs r (check cfg q w).0 (check-IsWaiting q w i many.0 quiet) many.1 due)
  ]

new-IsPast : (t : ℕ) → IsPast t new
unfolding new
new-IsPast t = record { dropped = tt; resent = tt }

new-gate : (g : ℕ) → AtMost g new.gate_active_since
unfolding new
new-gate g = tt

new-last_running : new.last_running ≡ none
unfolding new
new-last_running = refl

module _ {F : Type 0} ⦃fl : Floats F⦄ (s : Settings F) (arrives : Middleware Bool)
    (law : KeepsLast arrives) (before after : List (String × Bool)) (es : List Event) (q : Readings)
    (later : List Event) where
  -- When queues keep the last messages, and a latched topic brings the last one from before the
  -- subscription: whatever was published before the watchdog and after it, and whatever callbacks
  -- a new node has run, once it has taken the messages that arrived, and the last message
  -- published on its topic says that the program is down, no call is in flight, the calls in a row
  -- are below the maximum and the node is enabled: if a check read the clock for the gate not
  -- after g, like the checks before it, and it and all checks since then count enough publishers,
  -- and no callback read the clock for the program after t, then further checks with enough
  -- publishers, of which the last comes when the debounce of the gate since g and the debounce of
  -- the drop and the cooldown since t are over and the service is available, call the resend
  -- service at least once.
  pub length-calls-run :
      (g t : ℕ) (rs : List Readings) (r : Readings)
      → (let (topic, qos) = program_subscription s in
          heard (es ++ timer q ∷ later)
          ≡ arrives qos (on_topic topic before) (on_topic topic after))
      → final none (on_topic s.program_running_topic (before ++ after)) ≡ some false
      → All (GateUntil g) (es ++ timer q ∷ [])
      → All (Until t) (es ++ timer q ∷ later)
      → All (HasEnough (config_of s)) (timer q ∷ later)
      → (run (config_of s) new (es ++ timer q ∷ later)).resend_in_flight ≡ false
      → ¬ (
          s.max_consecutive_resends
          ≤ℤ pos (run (config_of s) new (es ++ timer q ∷ later)).consecutive_resends)
      → All (λ p. s.gate_min_publishers ≤ℤ p.publishers) (rs ++ r ∷ [])
      → IsDue (config_of s) g t r
      → 0
        < length (
            calls
              (config_of s)
              (run (config_of s) new (es ++ timer q ∷ later))
              (map timer (rs ++ r ∷ [])))
  length-calls-run g t rs r arrived down gate_early early enough settled under many due =
      let cfg : Config = config_of s in
      let all = es ++ timer q ∷ later in
      let w = run cfg new all in
      let topic = s.program_running_topic in
      let w_down : w.last_running ≡ some false =
        run-last_running cfg new all
        ∙ ap (λ o. final o (heard all)) new-last_running
        ∙ ap (final none) arrived
        ∙ law.latched (on_topic topic before) (on_topic topic after)
        ∙ ap (final none) (sym (on_topic-append topic before after))
        ∙ down in
      let past : IsPast t w = run-IsPast cfg t new all early (new-IsPast t) in
      let valid : IsValid cfg w = run-IsValid cfg new all (new-IsValid cfg) in
      waiting-calls cfg g t rs r w
        (record {
          down = w_down;
          settled = settled;
          under = under;
          last = past.resent;
          since = known-AtMost t w.false_since (valid.dropped ∙ ap is_down w_down) past.dropped;
          gate = run-gate_known cfg g new es q later (new-gate g) gate_early enough;
        })
        many due
