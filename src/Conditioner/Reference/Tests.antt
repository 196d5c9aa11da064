-- ===== src/Conditioner/Reference/Tests.antt =====
-- A key that repeats within the windows and is then released.
use digital_twin_based_on_un.Common.{◌≡◌, refl, List, [], ◌∷◌, none}
use digital_twin_based_on_un.Common.Int.{ℤ, pos}
use digital_twin_based_on_un.Common.Samples.{whole_floats}
use digital_twin_based_on_un.Msgs.{TwistStamped}
use digital_twin_based_on_un.Conditioner.{init, norm}
use digital_twin_based_on_un.Conditioner.Traces.{Event, twist, timer, run}
use digital_twin_based_on_un.Conditioner.Reference.{Limits, reference_run, run-reference_run}

abbrev forward : TwistStamped ℤ
forward = record {
  stamp = 90;
  frame_id = "base_link";
  linear = (pos 5, pos 0, pos 0);
  angular = (pos 0, pos 0, pos 0);
}

abbrev limits : Limits ℤ
limits = record {
  linear_zero_epsilon = pos 0;
  angular_zero_epsilon = pos 0;
  initial_hold_s = pos 650;
  active_timeout_s = pos 250;
}

-- The repeats begin after 600, within the initial hold, and the last window ends at 950.
abbrev repeating : List (Event ℤ)
repeating =
    twist 100 forward
    ∷ timer 680 681
    ∷ twist 700 forward
    ∷ timer 940 941
    ∷ timer 960 961
    ∷ timer 980 981
    ∷ []

reference_run-repeating :
    reference_run limits none repeating
    ≡ record forward { stamp = 681 }
      ∷ record forward { stamp = 941 }
      ∷ record forward { stamp = 961; linear = (pos 0, pos 0, pos 0) }
      ∷ []
unfolding norm
reference_run-repeating = refl

run-reference_run_example :
    (run (init (pos 0) (pos 0) (pos 650) (pos 250)) repeating).1
    ≡ reference_run limits none repeating
run-reference_run_example = run-reference_run (pos 0) (pos 0) (pos 650) (pos 250) repeating
