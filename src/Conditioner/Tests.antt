-- ===== src/Conditioner/Tests.antt =====
-- The conditioner over a concrete sequence of callbacks, and an instance of each theorem.
use digital_twin_based_on_un.Common.{
  ◌≡◌, refl, true, false, List, [], ◌∷◌, All, length, if◌then◌else◌,
}
use digital_twin_based_on_un.Common.Int.{ℤ, pos}
use digital_twin_based_on_un.Common.Samples.{whole_floats}
use digital_twin_based_on_un.Msgs.{TwistStamped, TeleopStatus}
use digital_twin_based_on_un.Display.{displaying, new, observe_nonzero, tick, force_stop}
use digital_twin_based_on_un.Conditioner.{
  init, is_nonzero, norm, on_twist, on_status, publish_display, force_stop_display, zero_message,
}
use digital_twin_based_on_un.Conditioner.Traces.{Event, twist, status, timer, step, run}
use digital_twin_based_on_un.Conditioner.Shown.{IsZero}
use digital_twin_based_on_un.Conditioner.Stops.{run-orders_stop}

abbrev forward : TwistStamped ℤ
forward = record {
  stamp = 90;
  frame_id = "base_link";
  linear = (pos 5, pos 0, pos 0);
  angular = (pos 0, pos 0, pos 0);
}

abbrev unsafe : TeleopStatus ℤ
unsafe = record {
  active_mode = 4;
  enabled = true;
  emergency_stop = false;
  safety_ok = false;
  input_alive = true;
  command_timeout = false;
  command_age = pos 0;
  error_code = 0;
  last_stop_reason = "";
  message = "";
}

abbrev stopped_run : List (Event ℤ)
stopped_run = twist 100 forward ∷ timer 110 111 ∷ status 120 unsafe ∷ timer 130 131 ∷ []

-- The held twist is repeated, one zero twist ends it, and the timer then has nothing to send.
run-stopped_run :
    (run (init (pos 0) (pos 0) (pos 650) (pos 250)) stopped_run).1
    ≡ record forward { stamp = 111 }
      ∷ record forward { stamp = 120; linear = (pos 0, pos 0, pos 0) }
      ∷ []
unfolding run step init new on_twist on_status publish_display force_stop_display zero_message
    is_nonzero norm observe_nonzero tick force_stop displaying
run-stopped_run = refl

run-orders_stop_example :
    let c = on_twist (init (pos 0) (pos 0) (pos 650) (pos 250)) 100 forward in
    All IsZero (step c.0 (status 120 unsafe)).1
    × (length (step c.0 (status 120 unsafe)).1 ≡ (if displaying c.0.state then 1 else 0))
    × ((run (step c.0 (status 120 unsafe)).0 (timer 130 131 ∷ [])).1 ≡ [])
run-orders_stop_example =
    run-orders_stop (on_twist (init (pos 0) (pos 0) (pos 650) (pos 250)) 100 forward).0
      (status 120 unsafe) (timer 130 131 ∷ []) refl (tt, tt)
