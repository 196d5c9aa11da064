-- ===== src/Conditioner/Reference.antt =====
-- The conditioner against a plainer one, which keeps the twist on display with the time at which it
-- was seen and the window for which it is shown, and has no phases.
mod Tests
use Prim.Native.String.{String}
use text.Mathlib.Text.{◌==◌ as str_eq}
use digital_twin_based_on_un.Common.{
  ℕ, ◌≡◌, refl, ap₂, ap, ◌∙◌, Bool, true, false, not, ◌||◌, ◌==◌, List, [], ◌∷◌, ◌++◌, Option, none,
  some, if◌then◌else◌, arith, is_some,
}
use digital_twin_based_on_un.Common.Floats.{Floats, fl_zero, fl_max, seconds}
use digital_twin_based_on_un.Msgs.{TwistStamped, TeleopCommand, TeleopStatus, mode_cartesian_twist}
use digital_twin_based_on_un.Display.{
  DisplayTwistState, Phase, idle, priming, active, new, observe_nonzero, force_stop, tick,
  displaying, has_expired, reset,
}
use digital_twin_based_on_un.Conditioner.{
  Conditioner, init, norm, is_nonzero, zero_vector, zero_frame, zero_message, force_stop_display,
  on_twist, hard_stop, on_command, on_status, publish_action, publish_display,
}
use digital_twin_based_on_un.Conditioner.Traces.{Event, twist, command, status, timer, step, run}
use digital_twin_based_on_un.Conditioner.Invariant.{IsCoherent, init-IsCoherent, step-IsCoherent}

-- The four numbers that never change.
pub record Limits (F : Type 0) : Type 0 where
  pub linear_zero_epsilon : F
  pub angular_zero_epsilon : F
  pub initial_hold_s : F
  pub active_timeout_s : F

-- The twist on display, when it was seen, and for how long it is shown.
pub record Held (F : Type 0) : Type 0 where
  pub twist : TwistStamped F
  pub seen : F
  pub window : F

module _ {F : Type 0} ⦃fl : Floats F⦄ where
  abbrev pub is_moving : Limits F → TwistStamped F → Bool
  is_moving l msg =
      fl.lt l.linear_zero_epsilon (norm msg.linear)
      || fl.lt l.angular_zero_epsilon (norm msg.angular)

  -- Whether nothing is on display at a time.
  abbrev pub is_over : Option (Held F) → F → Bool
  is_over none t = true
  is_over (some h) t = fl.lt h.window (fl.sub t h.seen)

  -- The end of a display: one zero twist, in the frame asked for or else in that of the twist.
  abbrev pub ended : Option (Held F) → ℕ → String → List (TwistStamped F)
  ended none now frame_id = []
  ended (some h) now frame_id =
      record {
        stamp = now;
        frame_id = if str_eq frame_id "" then h.twist.frame_id else frame_id;
        linear = zero_vector;
        angular = zero_vector;
      }
      ∷ []

  abbrev pub stopped : Bool → Option (Held F) → ℕ → String → Option (Held F) × List (TwistStamped F)
  stopped true held now frame_id = (none, ended held now frame_id)
  stopped false held now frame_id = (held, [])

  abbrev pub shown : Option (Held F) → F → ℕ → Option (Held F) × List (TwistStamped F)
  shown none t now = (none, [])
  shown (some h) t now =
      if is_over (some h) t
      then (none, ended (some h) now "")
      else (some h, record h.twist { stamp = now } ∷ [])

  abbrev pub reference_step :
      Limits F → Option (Held F) → Event F → Option (Held F) × List (TwistStamped F)
  reference_step l held (twist now msg) =
      if is_moving l msg
      then (
        some (record {
          twist = msg;
          seen = seconds now;
          window = if is_over held (seconds now) then l.initial_hold_s else l.active_timeout_s;
        }),
        [],
      )
      else (held, [])
  reference_step l held (command now msg) =
      stopped
        (msg.emergency_stop
          || not msg.enable
          || not (msg.control_mode == mode_cartesian_twist)
          || not (is_moving l msg.target_twist))
        held now msg.target_twist.frame_id
  reference_step l held (status now msg) =
      stopped (msg.emergency_stop || not msg.enabled || not msg.safety_ok) held now ""
  reference_step l held (timer tick_now now) = shown held (seconds tick_now) now

  abbrev pub reference_run : Limits F → Option (Held F) → List (Event F) → List (TwistStamped F)
  reference_run l held [] = []
  reference_run l held (e ∷ es) =
      let (next, out) = reference_step l held e in out ++ reference_run l next es

  -- What the node keeps, in these terms.
  abbrev pub limits_of : Conditioner F → Limits F
  limits_of c = record {
    linear_zero_epsilon = c.linear_zero_epsilon;
    angular_zero_epsilon = c.angular_zero_epsilon;
    initial_hold_s = c.state.initial_hold_s;
    active_timeout_s = c.state.active_timeout_s;
  }

  abbrev held_in : Phase → DisplayTwistState F → TwistStamped F → Option (Held F)
  held_in idle s m = none
  held_in priming s m =
      some (record { twist = m; seen = s.first_nonzero_s; window = s.initial_hold_s })
  held_in active s m =
      some (record { twist = m; seen = s.last_nonzero_s; window = s.active_timeout_s })

  abbrev held_of : Option (TwistStamped F) → DisplayTwistState F → Option (Held F)
  held_of none s = none
  held_of (some m) s = held_in s.phase s m

  -- One step of the node, against the reference.
  record Follows (c : Conditioner F) (e : Event F) : Type 0 where
    limits : limits_of (step c e).0 ≡ limits_of c
    held :
        held_of (step c e).0.last_nonzero (step c e).0.state
        ≡ (reference_step (limits_of c) (held_of c.last_nonzero c.state) e).0
    out : (step c e).1 ≡ (reference_step (limits_of c) (held_of c.last_nonzero c.state) e).1

  step-Follows : (c : Conditioner F) (e : Event F) → IsCoherent c → Follows c e
  unfolding step on_twist on_command on_status publish_display is_nonzero force_stop_display
      force_stop observe_nonzero tick displaying zero_message zero_frame hard_stop publish_action
      has_expired reset
  step-Follows c (twist now msg) v = record {
    limits = ground arith;
    held = ground (arith, v.kept);
    out = ground arith;
  }
  step-Follows c (command now msg) v = record {
    limits = ground arith;
    held = ground (arith, v.kept);
    out = ground (arith, v.kept);
  }
  step-Follows c (status now msg) v = record {
    limits = ground arith;
    held = ground (arith, v.kept);
    out = ground (arith, v.kept);
  }
  step-Follows c (timer tick_now now) v = record {
    limits = ground arith;
    held = ground (arith, v.kept);
    out = ground (arith, v.kept);
  }

  run-follows :
      (c : Conditioner F) (es : List (Event F))
      → IsCoherent c
      → (run c es).1 ≡ reference_run (limits_of c) (held_of c.last_nonzero c.state) es
  unfolding run
  run-follows c [] v = refl
  run-follows c (e ∷ es) v =
      let f = step-Follows c e v in
      ap₂ (λ out rest. out ++ rest) f.out
        (run-follows (step c e).0 es (step-IsCoherent c e v)
          ∙ ap₂ (λ l held. reference_run l held es) f.limits f.held)

  -- Whatever the clock reads, over any sequence of callbacks a new node publishes what a plain
  -- reference publishes, which keeps the twist on display with the time at which it was seen and a
  -- window, the initial hold if nothing was on display then and the active timeout otherwise: the
  -- timer repeats the twist with a new stamp within the window, and after it, or on a stopping
  -- command or a rejecting status, one zero twist ends the display.
  pub run-reference_run :
      (linear_eps angular_eps initial_hold_s active_timeout_s : F) (es : List (Event F))
      → (run (init linear_eps angular_eps initial_hold_s active_timeout_s) es).1
        ≡ reference_run
            (record {
              linear_zero_epsilon = fl.abs linear_eps;
              angular_zero_epsilon = fl.abs angular_eps;
              initial_hold_s = fl_max initial_hold_s fl_zero;
              active_timeout_s = fl_max active_timeout_s fl_zero;
            })
            none
            es
  unfolding init new
  run-reference_run linear_eps angular_eps initial_hold_s active_timeout_s es =
      run-follows (init linear_eps angular_eps initial_hold_s active_timeout_s) es
        (init-IsCoherent linear_eps angular_eps initial_hold_s active_timeout_s)
