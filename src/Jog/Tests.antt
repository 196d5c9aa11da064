-- ===== src/Jog/Tests.antt =====
-- The key mapping at concrete keys, after test_keyboard_unity_servo.py.
use digital_twin_based_on_un.Common.{◌≡◌, refl, some}
use digital_twin_based_on_un.Common.Int.{pos, negsuc}
use digital_twin_based_on_un.Common.Samples.{whole_floats}
use digital_twin_based_on_un.Jog.{codes, filter_held_keys, axis, held_keys_to_twist}

unknown_keys_are_ignored : filter_held_keys (some (codes "w1!d ")) ≡ codes "wd"
unfolding filter_held_keys
unknown_keys_are_ignored = refl

opposing_keys_cancel :
    held_keys_to_twist (some (codes "iows")) (pos 8) (pos 5)
    ≡ ((pos 0, pos 0, pos 0), (pos 5, pos 0, negsuc 4))
unfolding held_keys_to_twist axis
opposing_keys_cancel = refl
