-- ===== src/Bridges/Joining/Tests.antt =====
-- A bridge that starts after the driver has said that the robot runs.
use Prim.Native.String.{String}
use digital_twin_based_on_un.Common.{◌≡◌, refl, true, List, [], ◌∷◌, none}
use digital_twin_based_on_un.Common.Int.{ℤ, pos}
use digital_twin_based_on_un.Common.Samples.{whole_floats}
use digital_twin_based_on_un.Topics.Samples.{arrives, arrives-KeepsLast}
use digital_twin_based_on_un.Params.StateBridge.{Settings}
use digital_twin_based_on_un.Bridges.Status.{
  robot_mode_label, safety_mode_label, Input, mode_code, safety_code, program_running, scaling,
  new_bridge, published_pose, published_wrench,
}
use digital_twin_based_on_un.Bridges.Latest.{Event, input, status_timer, run}
use digital_twin_based_on_un.Bridges.Subscriptions.{
  Subscription, tcp_pose_callback, robot_mode_callback, safety_mode_callback,
  robot_program_running_callback, speed_scaling_callback, wrench_callback, tcp_pose_timer,
  robot_status_timer, wrench_timer, tcp_pose_out, robot_status_out, wrench_out, fire, qos_of,
}
use digital_twin_based_on_un.Bridges.Arrivals.{of_type, heard, meant_for}
use digital_twin_based_on_un.Bridges.Joining.{fire_lem}

abbrev settings : Settings ℤ
settings = record {
  tcp_pose_topic = "/pose";
  robot_mode_topic = "/mode";
  safety_mode_topic = "/safety";
  robot_program_running_topic = "/program";
  speed_scaling_topic = "/scaling";
  wrench_topic = "/wrench";
  tcp_pose_output_topic = "/unity/tcp_pose";
  robot_status_output_topic = "/unity/robot_status";
  wrench_output_topic = "/unity/wrench";
  tcp_pose_period_s = pos 1;
  robot_status_period_s = pos 1;
  wrench_period_s = pos 1;
}

abbrev before : List (String × Input ℤ)
before =
    ("/mode", mode_code (pos 5))
    ∷ ("/scaling", scaling (pos 100))
    ∷ ("/mode", mode_code (pos 7))
    ∷ ("/program", program_running true)
    ∷ []

abbrev after : List (String × Input ℤ)
after = ("/other", mode_code (pos 3)) ∷ ("/safety", safety_code (pos 1)) ∷ []

abbrev callbacks : List (Event ℤ)
callbacks =
    input (program_running true)
    ∷ status_timer 10
    ∷ input (mode_code (pos 7))
    ∷ input (safety_code (pos 1))
    ∷ []

callbacks-arrived :
    (c : Subscription)
    → of_type c (heard callbacks)
      ≡ arrives (qos_of c) (meant_for settings c before) (meant_for settings c after)
callbacks-arrived tcp_pose_callback = refl
callbacks-arrived robot_mode_callback = refl
callbacks-arrived safety_mode_callback = refl
callbacks-arrived robot_program_running_callback = refl
callbacks-arrived speed_scaling_callback = refl
callbacks-arrived wrench_callback = refl

-- The speed scaling from before the bridge is lost, the modes are not.
fire_lem_example :
    let b = run callbacks new_bridge in
    (fire settings 20 tcp_pose_timer b ≡ ("/unity/tcp_pose", tcp_pose_out (published_pose 20 none)))
    × (fire settings 20 robot_status_timer b ≡ (
      "/unity/robot_status",
      robot_status_out (record {
        stamp = 20;
        robot_mode = pos 7;
        robot_mode_label = "RUNNING";
        safety_mode = pos 1;
        safety_mode_label = "NORMAL";
        robot_program_running = true;
        robot_program_running_received = true;
        speed_scaling = pos 0;
      }),
    ))
    × (fire settings 20 wrench_timer b ≡ ("/unity/wrench", wrench_out (published_wrench 20 none)))
unfolding robot_mode_label safety_mode_label
fire_lem_example =
    fire_lem settings arrives arrives-KeepsLast before after callbacks 20 callbacks-arrived
