-- ===== src/Conditioner/Invariant.antt =====
-- What holds of the conditioner between two callbacks, and what it may publish.
use Prim.Native.String.{String}
use digital_twin_based_on_un.Common.{
  ℕ, ◌≡◌, Bool, true, List, [], ◌∷◌, Option, none, some, arith, is_some,
}
use digital_twin_based_on_un.Common.Floats.{Floats, seconds}
use digital_twin_based_on_un.Msgs.{TwistStamped, TeleopCommand, TeleopStatus}
use digital_twin_based_on_un.Display.{
  DisplayTwistState, displaying, observe_nonzero, force_stop, tick, new,
}
use digital_twin_based_on_un.Conditioner.{
  Conditioner, init, is_nonzero, force_stop_display, on_twist, on_command, on_status,
  publish_display,
}
use digital_twin_based_on_un.Conditioner.Traces.{Event, twist, command, status, timer, step, run}

module _ {F : Type 0} ⦃fl : Floats F⦄ where
  -- Whether the message kept, if there is one, is a nonzero twist.
  abbrev pub keeps_nonzero : Conditioner F → Option (TwistStamped F) → Bool
  keeps_nonzero c none = true
  keeps_nonzero c (some m) = is_nonzero c m

  -- A message is kept exactly while one is displayed, and the message kept is a nonzero twist.
  pub record IsCoherent (c : Conditioner F) : Type 0 where
    pub kept : is_some c.last_nonzero ≡ displaying c.state
    pub moving : keeps_nonzero c c.last_nonzero ≡ true

  pub init-IsCoherent : (le ae hold timeout : F) → IsCoherent (init le ae hold timeout)
  unfolding init new displaying
  init-IsCoherent le ae hold timeout = ground arith

  force_stop_display-IsCoherent :
      (c : Conditioner F) (now : ℕ) (f : String) → IsCoherent (force_stop_display c now f).0
  unfolding force_stop_display force_stop displaying
  force_stop_display-IsCoherent c now f = ground arith

  displaying-observe_nonzero :
      (s : DisplayTwistState F) (t : F) → displaying (observe_nonzero s t) ≡ true
  unfolding displaying observe_nonzero
  displaying-observe_nonzero s t = ground arith

  on_twist-IsCoherent :
      (c : Conditioner F) (now : ℕ) (msg : TwistStamped F)
      → IsCoherent c
      → IsCoherent (on_twist c now msg).0
  unfolding on_twist is_nonzero
  on_twist-IsCoherent c now msg v = ground (arith, displaying-observe_nonzero c.state (seconds now))

  on_command-IsCoherent :
      (c : Conditioner F) (now : ℕ) (msg : TeleopCommand F)
      → IsCoherent c
      → IsCoherent (on_command c now msg).0
  unfolding on_command
  on_command-IsCoherent c now msg v =
      ground (arith, force_stop_display-IsCoherent c now msg.target_twist.frame_id)

  on_status-IsCoherent :
      (c : Conditioner F) (now : ℕ) (msg : TeleopStatus F)
      → IsCoherent c
      → IsCoherent (on_status c now msg).0
  unfolding on_status
  on_status-IsCoherent c now msg v = ground (arith, force_stop_display-IsCoherent c now "")

  publish_display-IsCoherent :
      (c : Conditioner F) (tick_now now : ℕ)
      → IsCoherent c
      → IsCoherent (publish_display c tick_now now).0
  unfolding publish_display tick displaying is_nonzero
  publish_display-IsCoherent c tick_now now v = ground arith

  pub step-IsCoherent : (c : Conditioner F) (e : Event F) → IsCoherent c → IsCoherent (step c e).0
  unfolding step
  step-IsCoherent c (twist now msg) v = on_twist-IsCoherent c now msg v
  step-IsCoherent c (command now msg) v = on_command-IsCoherent c now msg v
  step-IsCoherent c (status now msg) v = on_status-IsCoherent c now msg v
  step-IsCoherent c (timer tick_now now) v = publish_display-IsCoherent c tick_now now v

  -- After any sequence of callbacks from a valid node a message is kept exactly while one is
  -- displayed, and the message kept is a nonzero twist.
  run-IsCoherent :
      (c : Conditioner F) (es : List (Event F)) → IsCoherent c → IsCoherent (run c es).0
  unfolding run
  run-IsCoherent c [] v = v
  run-IsCoherent c (e ∷ es) v = run-IsCoherent (step c e).0 es (step-IsCoherent c e v)
