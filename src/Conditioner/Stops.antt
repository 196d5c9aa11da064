-- ===== src/Conditioner/Stops.antt =====
-- Explicit stops: a command that stops, or a status that rejects.
use digital_twin_based_on_un.Common.{
  ◌≡◌, refl, Bool, true, false, not, ◌||◌, ◌==◌, List, [], ◌∷◌, none, arith, All, All-weaken,
  length, if◌then◌else◌,
}
use digital_twin_based_on_un.Common.Floats.{Floats}
use digital_twin_based_on_un.Msgs.{TwistStamped}
use digital_twin_based_on_un.Display.{displaying, force_stop, tick}
use digital_twin_based_on_un.Conditioner.{
  Conditioner, is_nonzero, zero_message, force_stop_display, on_twist, on_command, on_status,
  publish_display, publish_action,
}
use digital_twin_based_on_un.Conditioner.Traces.{Event, twist, command, status, timer, step, run}
use digital_twin_based_on_un.Conditioner.Shown.{IsZero}

module _ {F : Type 0} ⦃fl : Floats F⦄ where
  -- The event tells the node to show no motion.
  abbrev pub orders_stop : Conditioner F → Event F → Bool
  orders_stop c (twist now msg) = false
  orders_stop c (command now msg) =
      msg.emergency_stop
      || (not msg.enable || (not (msg.control_mode == 4) || not (is_nonzero c msg.target_twist)))
  orders_stop c (status now msg) = msg.emergency_stop || (not msg.enabled || not msg.safety_ok)
  orders_stop c (timer tick_now now) = false

  -- The event delivers no nonzero twist.
  abbrev pub IsStill : Conditioner F → Event F → Type 0
  IsStill c (twist now msg) = is_nonzero c msg ≡ false
  IsStill c _ = Unit {0}

  -- Nothing is displayed and nothing is kept.
  abbrev pub IsBlank : Conditioner F → Type 0
  IsBlank c = (displaying c.state ≡ false) × (c.last_nonzero ≡ none)

  step-is_nonzero :
      (c : Conditioner F) (e : Event F) (m : TwistStamped F)
      → is_nonzero (step c e).0 m ≡ is_nonzero c m
  unfolding step on_twist on_command on_status publish_display publish_action force_stop_display
      is_nonzero
  step-is_nonzero c (twist now msg) m = ground arith
  step-is_nonzero c (command now msg) m = ground arith
  step-is_nonzero c (status now msg) m = ground arith
  step-is_nonzero c (timer tick_now now) m = ground arith

  step-IsBlank :
      (c : Conditioner F) (e : Event F)
      → IsBlank c
      → IsStill c e
      → IsBlank (step c e).0 × ((step c e).1 ≡ [])
  unfolding step on_twist on_command on_status publish_display publish_action force_stop_display
      force_stop displaying tick
  step-IsBlank c (twist now msg) b s = ground arith
  step-IsBlank c (command now msg) b s = ground arith
  step-IsBlank c (status now msg) b s = ground arith
  step-IsBlank c (timer tick_now now) b s = ground arith

  step-orders_stop :
      (c : Conditioner F) (e : Event F)
      → orders_stop c e ≡ true
      → IsBlank (step c e).0
        × All IsZero (step c e).1
        × (length (step c e).1 ≡ (if displaying c.state then 1 else 0))
  unfolding step on_command on_status force_stop_display force_stop displaying zero_message
  step-orders_stop c (twist now msg) h = cc
  step-orders_stop c (command now msg) h = ground arith
  step-orders_stop c (status now msg) h = ground arith
  step-orders_stop c (timer tick_now now) h = cc

  IsStill-step : (c : Conditioner F) (e d : Event F) → IsStill c d → IsStill (step c e).0 d
  IsStill-step c e (twist now msg) h = rw (step-is_nonzero c e msg) h
  IsStill-step c e _ h = tt

  run-IsBlank :
      (c : Conditioner F) (es : List (Event F)) → IsBlank c → All (IsStill c) es → (run c es).1 ≡ []
  unfolding run
  run-IsBlank c [] b s = refl
  run-IsBlank c (e ∷ es) b s =
      let (b', quiet) = step-IsBlank c e b s.0 in
      let later = All-weaken (IsStill c) (IsStill (step c e).0) es (IsStill-step c e) s.1 in
      rw quiet (run-IsBlank (step c e).0 es b' later)

  -- A stopping command or a rejecting status publishes zero twists alone, one if a command was
  -- displayed and none if not, and from then on nothing is published until a nonzero twist
  -- arrives.
  pub run-orders_stop :
      (c : Conditioner F) (e : Event F) (es : List (Event F))
      → orders_stop c e ≡ true
      → All (IsStill c) es
      → All IsZero (step c e).1
        × (length (step c e).1 ≡ (if displaying c.state then 1 else 0))
        × ((run (step c e).0 es).1 ≡ [])
  run-orders_stop c e es h s =
      let (blank, zeros, how_many) = step-orders_stop c e h in
      let later = All-weaken (IsStill c) (IsStill (step c e).0) es (IsStill-step c e) s in
      (zeros, how_many, run-IsBlank (step c e).0 es blank later)
