-- ===== src/Conditioner/Traces.antt =====
-- The conditioner under any sequence of callbacks, as the executor may order them.
use digital_twin_based_on_un.Common.{ℕ, List, [], ◌∷◌, ◌++◌}
use digital_twin_based_on_un.Common.Floats.{Floats}
use digital_twin_based_on_un.Msgs.{TwistStamped, TeleopCommand, TeleopStatus}
use digital_twin_based_on_un.Conditioner.{
  Conditioner, Handled, on_twist, on_command, on_status, publish_display,
}

-- One callback, with the clock readings that its handler makes.
pub data Event (F : Type 0) : Type 0 where
  twist : ℕ → TwistStamped F → Event F
  command : ℕ → TeleopCommand F → Event F
  status : ℕ → TeleopStatus F → Event F
  timer : ℕ → ℕ → Event F

module _ {F : Type 0} ⦃fl : Floats F⦄ where
  unfoldable pub step : Conditioner F → Event F → Handled F
  step c (twist now msg) = on_twist c now msg
  step c (command now msg) = on_command c now msg
  step c (status now msg) = on_status c now msg
  step c (timer tick_now now) = publish_display c tick_now now

  -- The node after all events, and everything that it published, in order.
  unfoldable pub run : Conditioner F → List (Event F) → Handled F
  run c [] = (c, [])
  run c (e ∷ es) = let (c', out) = step c e in let (c'', rest) = run c' es in (c'', out ++ rest)
