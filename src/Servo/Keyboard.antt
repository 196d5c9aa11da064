-- ===== src/Servo/Keyboard.antt =====
-- The keyboard of the servo node against the abstract one, which keeps which jog keys are held.
use Prim.Native.String.{String}
use text.Mathlib.Text.{◌==◌ as str_eq}
use digital_twin_based_on_un.Common.Floats.{Floats}
