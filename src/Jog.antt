-- ===== src/Jog.antt =====
-- The pure key mapping of the keyboard servo: digital_twin_on_unity_and_ros2/
-- digital_twin_on_unity_and_ros2/command_bridges/keyboard_jog.py under the repository's src/.
-- A text is the list of its code points; `None` is the absent text.
pub mod Filter
pub mod Twist
mod Tests
use Prim.Native.Char.{code}
use Prim.Native.String.{String}
use text.Mathlib.Text.{◌==◌ as str_eq}
use digital_twin_based_on_un.Common.{
  ℕ, Bool, false, ◌||◌, List, [], ◌∷◌, Option, none, some, elem, if◌then◌else◌,
}
use digital_twin_based_on_un.Common.Int.{ℤ, sub_ℕ}
use digital_twin_based_on_un.Common.Floats.{Floats}
use digital_twin_based_on_un.Msgs.{Vector3}

abbrev pub codes : String → List ℕ
codes String.[] = []
codes (String.◌∷◌ c s) = code c ∷ codes s

abbrev pub jog_keys : List ℕ
jog_keys = codes "wsadqeikjluo"

abbrev pub action_stop : String
action_stop = "space"

abbrev pub action_home : String
action_home = "h"

abbrev pub action_toggle_controller : String
action_toggle_controller = "c"

abbrev pub action_record_home : String
action_record_home = "r"

abbrev pub action_record_zero : String
action_record_zero = "z"

abbrev pub action_stop_and_clear : String
action_stop_and_clear = "x"

abbrev pub action_keys : List String
action_keys =
    action_stop ∷ action_home ∷ action_toggle_controller ∷ action_record_home ∷ action_record_zero
    ∷ action_stop_and_clear ∷ []

-- `action in ACTION_KEYS`
abbrev pub is_action_key : String → List String → Bool
is_action_key a [] = false
is_action_key a (k ∷ ks) = str_eq a k || is_action_key a ks

-- `held_keys or ""`
abbrev pub or_empty : Option (List ℕ) → List ℕ
or_empty none = []
or_empty (some keys) = keys

-- The characters of `keys` that are in `allowed`, in order.
pub keep_in : List ℕ → List ℕ → List ℕ
keep_in allowed [] = []
keep_in allowed (key ∷ keys) =
    if elem key allowed then key ∷ keep_in allowed keys else keep_in allowed keys

unfoldable pub filter_held_keys : Option (List ℕ) → List ℕ
unfolding keep_in
filter_held_keys held_keys = keep_in jog_keys (or_empty held_keys)

-- `int(b)`
abbrev pub int_of : Bool → ℕ
int_of b = if b then 1 else 0

module _ {F : Type 0} ⦃fl : Floats F⦄ where
  -- The inner function of `held_keys_to_twist`, with the key set as an argument.
  unfoldable pub axis : List ℕ → ℕ → ℕ → F → F
  axis keys positive negative step =
      fl.mul (fl.of_int (sub_ℕ (int_of (elem positive keys)) (int_of (elem negative keys)))) step

  unfoldable pub held_keys_to_twist : Option (List ℕ) → F → F → Vector3 F × Vector3 F
  held_keys_to_twist held_keys linear_step angular_step =
      let keys = or_empty held_keys in
      (
        (
          axis keys b'w' b's' linear_step,
          axis keys b'a' b'd' linear_step,
          axis keys b'q' b'e' linear_step,
        ),
        (
          axis keys b'i' b'k' angular_step,
          axis keys b'j' b'l' angular_step,
          axis keys b'u' b'o' angular_step,
        ),
      )
