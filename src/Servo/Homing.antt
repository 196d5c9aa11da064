-- ===== src/Servo/Homing.antt =====
-- What the actions c and h do at the interfaces, step by step.
use digital_twin_based_on_un.Common.Floats.{Floats}
