-- ===== src/Conditioner/Shown.antt =====
-- What the conditioner may publish.
use Prim.Native.String.{String}
use digital_twin_based_on_un.Common.{
  ℕ, ◌≡◌, ◌⊎◌, inl, inr, List, [], ◌∷◌, Option, none, some, arith, All, All-append, All-weaken,
}
use digital_twin_based_on_un.Common.Floats.{Floats, seconds}
use digital_twin_based_on_un.Msgs.{TwistStamped}
use digital_twin_based_on_un.Display.{DisplayAction, tick}
use digital_twin_based_on_un.Conditioner.{
  Conditioner, init, zero_vector, zero_message, force_stop_display, on_twist, on_command, on_status,
  publish_display, publish_action,
}
use digital_twin_based_on_un.Conditioner.Traces.{Event, twist, command, status, timer, step, run}

module _ {F : Type 0} ⦃fl : Floats F⦄ where
  abbrev pub IsZero : TwistStamped F → Type 0
  IsZero m = (m.linear ≡ zero_vector) × (m.angular ≡ zero_vector)

  -- `m` is the twist `held` under a stamp of its own.
  abbrev pub Restamps : TwistStamped F → TwistStamped F → Type 0
  Restamps held m = m ≡ record held { stamp = m.stamp }

  abbrev pub IsHeld : Option (TwistStamped F) → TwistStamped F → Type 0
  IsHeld none m = ⊥
  IsHeld (some held) m = Restamps held m

  -- `m` repeats a twist that one of the events delivered.
  abbrev pub Repeats : List (Event F) → TwistStamped F → Type 0
  Repeats [] m = ⊥
  Repeats (twist now msg ∷ es) m = Restamps msg m ⊎ Repeats es m
  Repeats (command now msg ∷ es) m = Repeats es m
  Repeats (status now msg ∷ es) m = Repeats es m
  Repeats (timer tick_now now ∷ es) m = Repeats es m

  abbrev pub Shows : Conditioner F → TwistStamped F → Type 0
  Shows c m = IsZero m ⊎ IsHeld c.last_nonzero m

  force_stop_display-Shows :
      (c : Conditioner F) (now : ℕ) (f : String) → All (Shows c) (force_stop_display c now f).1
  unfolding force_stop_display zero_message
  force_stop_display-Shows c now f = ground arith

  publish_action-Shows :
      (a : DisplayAction) (c : Conditioner F) (now : ℕ)
      → All (Shows c) (publish_action a c.last_nonzero c now).1
  unfolding publish_action zero_message
  publish_action-Shows a c now = ground arith

  step-Shows : (c : Conditioner F) (e : Event F) → All (Shows c) (step c e).1
  unfolding step on_twist on_command on_status publish_display
  step-Shows c (twist now msg) = ground arith
  step-Shows c (command now msg) =
      ground (arith, force_stop_display-Shows c now msg.target_twist.frame_id)
  step-Shows c (status now msg) = ground (arith, force_stop_display-Shows c now "")
  step-Shows c (timer tick_now now) =
      let (state, action) = tick c.state (seconds tick_now) in
      publish_action-Shows action (record c { state = state }) now

  step-IsHeld :
      (c : Conditioner F) (e : Event F) (m : TwistStamped F)
      → IsHeld (step c e).0.last_nonzero m
      → IsHeld c.last_nonzero m ⊎ Repeats (e ∷ []) m
  unfolding step on_twist on_command on_status publish_display publish_action force_stop_display
  step-IsHeld c (twist now msg) m h = ground arith
  step-IsHeld c (command now msg) m h = ground arith
  step-IsHeld c (status now msg) m h = ground arith
  step-IsHeld c (timer tick_now now) m h = ground arith

  -- A message comes from the node `c` and the events `es`.
  abbrev pub Comes : Conditioner F → List (Event F) → TwistStamped F → Type 0
  Comes c es m = IsZero m ⊎ (IsHeld c.last_nonzero m ⊎ Repeats es m)

  Repeats-head :
      (e : Event F) (es : List (Event F)) (m : TwistStamped F)
      → Repeats (e ∷ []) m
      → Repeats (e ∷ es) m
  Repeats-head (twist now msg) es m h = ground arith
  Repeats-head (command now msg) es m h = absurd h
  Repeats-head (status now msg) es m h = absurd h
  Repeats-head (timer tick_now now) es m h = absurd h

  Repeats-tail :
      (e : Event F) (es : List (Event F)) (m : TwistStamped F) → Repeats es m → Repeats (e ∷ es) m
  Repeats-tail (twist now msg) es m h = inr h
  Repeats-tail (command now msg) es m h = h
  Repeats-tail (status now msg) es m h = h
  Repeats-tail (timer tick_now now) es m h = h

  step-Comes :
      (c : Conditioner F) (e : Event F) (es : List (Event F)) (m : TwistStamped F)
      → Comes (step c e).0 es m
      → Comes c (e ∷ es) m
  step-Comes c e es m (inl z) = inl z
  step-Comes c e es m (inr (inr r)) = inr (inr (Repeats-tail e es m r))
  step-Comes c e es m (inr (inl h)) = elim (step-IsHeld c e m h) [
    | inl old ↦ inr (inl old)
    | inr new ↦ inr (inr (Repeats-head e es m new))
  ]

  Shows-Comes :
      (c : Conditioner F) (es : List (Event F)) (m : TwistStamped F) → Shows c m → Comes c es m
  Shows-Comes c es m (inl z) = inl z
  Shows-Comes c es m (inr h) = inr (inl h)

  run-Comes : (c : Conditioner F) (es : List (Event F)) → All (Comes c es) (run c es).1
  unfolding run
  run-Comes c [] = tt
  run-Comes c (e ∷ es) =
      let (c', out) = step c e in
      All-append (Comes c (e ∷ es)) out (run c' es).1
        (All-weaken (Shows c) (Comes c (e ∷ es)) out (Shows-Comes c (e ∷ es)) (step-Shows c e))
        (All-weaken (Comes c' es) (Comes c (e ∷ es)) (run c' es).1 (step-Comes c e es)
          (run-Comes c' es))

  -- A message that the node may publish after the events `es`: zero, or a twist received in `es`.
  abbrev pub IsReceived : List (Event F) → TwistStamped F → Type 0
  IsReceived es m = IsZero m ⊎ Repeats es m

  Comes-IsReceived :
      (le ae hold timeout : F) (es : List (Event F)) (m : TwistStamped F)
      → Comes (init le ae hold timeout) es m
      → IsReceived es m
  unfolding init
  Comes-IsReceived le ae hold timeout es m (inl z) = inl z
  Comes-IsReceived le ae hold timeout es m (inr (inl h)) = absurd h
  Comes-IsReceived le ae hold timeout es m (inr (inr r)) = inr r

  -- From a new node, over any sequence of callbacks, every message on the display topic is a zero
  -- twist or repeats, but for its stamp, a twist that the node received.
  pub run-IsReceived :
      (le ae hold timeout : F) (es : List (Event F))
      → All (IsReceived es) (run (init le ae hold timeout) es).1
  run-IsReceived le ae hold timeout es =
      let c = init le ae hold timeout in
      All-weaken (Comes c es) (IsReceived es) (run c es).1 (Comes-IsReceived le ae hold timeout es)
        (run-Comes c es)
