-- ===== src/Entry/Endings/Tests.antt =====
-- Three of the programs on an interrupt that finds the context down.
use digital_twin_based_on_un.Common.{◌≡◌, refl, true, false, [], ◌∷◌, none, some}
use digital_twin_based_on_un.Entry.{
  keyboard_interrupt, runtime_error, init_call, construct_call, destroy_call, Runtime,
  joint_state_bridge_main, keyboard_unity_servo_main, ur_state_bridge_main,
}
use digital_twin_based_on_un.Entry.Endings.{
  servo, main_of, is_destroy, is_stop, has, fresh, main_of_lem,
}

abbrev interrupted : Runtime
interrupted = record {
  constructed = none;
  spun = some keyboard_interrupt;
  ok_after = false;
  not_published = some runtime_error;
  not_shut_down = some runtime_error;
}

joint_state_bridge_main-interrupted :
    joint_state_bridge_main interrupted fresh
    ≡ (record { ok = false; calls = init_call ∷ construct_call ∷ [] }, some keyboard_interrupt)
unfolding joint_state_bridge_main
joint_state_bridge_main-interrupted = refl

-- The stop of the servo is not published.
keyboard_unity_servo_main-interrupted : keyboard_unity_servo_main interrupted fresh ≡ (
  record { ok = false; calls = init_call ∷ construct_call ∷ destroy_call ∷ [] },
  some runtime_error,
)
unfolding keyboard_unity_servo_main
keyboard_unity_servo_main-interrupted = refl

ur_state_bridge_main-interrupted :
    ur_state_bridge_main interrupted fresh
    ≡ (record { ok = false; calls = init_call ∷ construct_call ∷ destroy_call ∷ [] }, none)
unfolding ur_state_bridge_main
ur_state_bridge_main-interrupted = refl

main_of_lem_example :
    let (c, raised) = main_of servo interrupted fresh in
    (has is_destroy c.calls ≡ true)
    × (has is_stop c.calls ≡ false)
    × (c.ok ≡ false)
    × (raised ≡ some runtime_error)
main_of_lem_example = main_of_lem servo interrupted
