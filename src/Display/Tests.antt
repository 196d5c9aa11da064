-- ===== src/Display/Tests.antt =====
-- The state machine at concrete times, after test_display_twist_state.py (in milliseconds).
use digital_twin_based_on_un.Common.{◌≡◌, refl, [], ◌∷◌}
use digital_twin_based_on_un.Common.Int.{pos}
use digital_twin_based_on_un.Common.Samples.{whole_floats}
use digital_twin_based_on_un.Display.{none, publish, stop, new, observe_nonzero, tick}
use digital_twin_based_on_un.Display.Windows.{ticks}

held_through_initial_delay :
    (ticks
      (observe_nonzero (new (pos 650) (pos 250)) (pos 1000))
      (pos 1600 ∷ pos 1651 ∷ pos 1700 ∷ [])).1
    ≡ publish ∷ stop ∷ none ∷ []
unfolding ticks tick observe_nonzero new
held_through_initial_delay = refl

second_sample_switches_to_active_timeout :
    (ticks
      (observe_nonzero (observe_nonzero (new (pos 650) (pos 250)) (pos 1000)) (pos 1500))
      (pos 1749 ∷ pos 1751 ∷ [])).1
    ≡ publish ∷ stop ∷ []
unfolding ticks tick observe_nonzero new
second_sample_switches_to_active_timeout = refl

late_second_sample_starts_a_new_window :
    (ticks
      (observe_nonzero (observe_nonzero (new (pos 650) (pos 250)) (pos 1000)) (pos 1700))
      (pos 2349 ∷ pos 2351 ∷ [])).1
    ≡ publish ∷ stop ∷ []
unfolding ticks tick observe_nonzero new
late_second_sample_starts_a_new_window = refl
