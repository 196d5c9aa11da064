-- ===== src/Params.antt =====
-- The parameters of the nodes, as the constructors under the repository's src/ declare and read
-- them. `declare_parameter` of rclpy is a function that the definitions take: the value of the
-- parameter, or none for an exception. `get_parameter(name).value` is the value that the
-- declaration gave.
pub mod Reading
pub mod Watchdog
pub mod Conditioner
pub mod StateBridge
pub mod Publisher
pub mod Servo
pub mod RobotInfo
pub mod ControllerStatus
pub mod EnableBridge
pub mod Observer
pub mod Mirror
pub mod Starting
mod Tests
use Prim.Native.String.{String}
use digital_twin_based_on_un.Common.{
  ℕ, Bool, List, [], ◌∷◌, Option, none, some, ◌==◌, if◌then◌else◌,
}
use digital_twin_based_on_un.Common.Int.{ℤ}
use digital_twin_based_on_un.Common.Floats.{Floats}
use digital_twin_based_on_un.Bridges.Joints.{lookup}

pub data Value (F : Type 0) : Type 0 where
  bool_value : Bool → Value F
  integer_value : ℤ → Value F
  double_value : F → Value F
  string_value : String → Value F
  double_array_value : List F → Value F
  string_array_value : List String → Value F
  -- of the type double array, without a value
  unset_array : Value F

module _ {F : Type 0} where
  -- The code of the type in rcl_interfaces/ParameterType.
  abbrev pub kind : Value F → ℕ
  kind (bool_value b) = 1
  kind (integer_value n) = 2
  kind (double_value x) = 3
  kind (string_value s) = 4
  kind (double_array_value xs) = 8
  kind (string_array_value ss) = 9
  kind unset_array = 8

-- A declared parameter: its name, and its default, which fixes the type.
abbrev pub Declarations : Type 0 → Type 0
Declarations F = List (String × Value F)

-- `declare_parameter`, by the name and the default.
abbrev pub Declare : Type 0 → Type 0
Declare F = String → Value F → Option (Value F)

infixl 5 ◌>>=◌
abbrev pub ◌>>=◌ {ℓ κ} : {A : Type ℓ} {B : Type κ} → Option A → (A → Option B) → Option B
none >>= f = none
some a >>= f = f a

module _ {F : Type 0} where
  -- The declarations of a constructor, in order.
  unfoldable pub declare_all : Declare F → Declarations F → Option (List (String × Value F))
  declare_all declare_parameter [] = some []
  declare_all declare_parameter ((name, default) ∷ ds) = do
    v ← declare_parameter name default
    rest ← declare_all declare_parameter ds
    some ((name, v) ∷ rest)

  -- `get_parameter(name).value`, as the value of a type; the node converts what it reads by
  -- `float`, `int` and `bool`, which keep a value of this type.
  abbrev pub as_flag : Option (Value F) → Option Bool
  as_flag (some (bool_value b)) = some b
  as_flag _ = none

  abbrev pub as_whole : Option (Value F) → Option ℤ
  as_whole (some (integer_value n)) = some n
  as_whole _ = none

  abbrev pub as_real : Option (Value F) → Option F
  as_real (some (double_value x)) = some x
  as_real _ = none

  abbrev pub as_text : Option (Value F) → Option String
  as_text (some (string_value s)) = some s
  as_text _ = none

  -- A double array, or that it has no value.
  abbrev pub as_array : Option (Value F) → Option (Option (List F))
  as_array (some (double_array_value xs)) = some (some xs)
  as_array (some unset_array) = some none
  as_array _ = none

  abbrev pub as_texts : Option (Value F) → Option (List String)
  as_texts (some (string_array_value ss)) = some ss
  as_texts _ = none

module _ {F : Type 0} ⦃fl : Floats F⦄ where
  -- `Duration(seconds=s)`, in nanoseconds.
  abbrev pub duration : F → ℤ
  duration s = fl.truncate (fl.mul s fl.giga)
