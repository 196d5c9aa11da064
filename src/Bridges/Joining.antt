-- ===== src/Bridges/Joining.antt =====
-- The robot state bridge among publishers that were there before it: what Unity sees.
mod Tests
use Prim.Native.String.{String}
use text.Mathlib.Text.{◌==◌ as str_eq}
use digital_twin_based_on_un.Common.{
  ℕ, ◌≡◌, refl, sym, ap, ◌∙◌, Bool, true, false, inl, inr, List, [], ◌∷◌, ◌++◌, Option, none, some,
  is_some, if◌then◌else◌, arith, Bool-cases,
}
use digital_twin_based_on_un.Common.Int.{ℤ, pos, negsuc}
use digital_twin_based_on_un.Common.Floats.{Floats, fl_zero}
use digital_twin_based_on_un.Msgs.{PoseStamped}
use digital_twin_based_on_un.Topics.{Middleware, KeepsLast, on_topic}
use digital_twin_based_on_un.Params.StateBridge.{Settings}
use digital_twin_based_on_un.Bridges.Status.{
  WrenchStamped, StateBridge, Input, tcp_pose, mode_code, safety_code, program_running, scaling,
  wrench, robot_mode_label, safety_mode_label, published_pose, published_wrench, publish_tcp_pose,
  publish_robot_status, publish_wrench, new_bridge,
}
use digital_twin_based_on_un.Bridges.Latest.{
  Event, input, status_timer, run, or_default, truth, last, read_mode, read_safety, read_program,
  read_pose, read_scaling, read_wrench, Shows, run-Shows, new_bridge-Shows,
}
use digital_twin_based_on_un.Bridges.Subscriptions.{
  Subscription, tcp_pose_callback, robot_mode_callback, safety_mode_callback,
  robot_program_running_callback, speed_scaling_callback, wrench_callback, qos_of, subscribed_topic,
  takes, Timer, tcp_pose_timer, robot_status_timer, wrench_timer, tcp_pose_out, robot_status_out,
  wrench_out, fire,
}
use digital_twin_based_on_un.Bridges.Arrivals.{
  of_type, heard, meant_for, messages, latched-last, streaming-last,
}

module _ {F : Type 0} where
  read_mode-takes : (i : Input F) → takes robot_mode_callback i ≡ is_some (read_mode i)
  read_mode-takes (mode_code code) = refl
  read_mode-takes i = refl

  read_safety-takes : (i : Input F) → takes safety_mode_callback i ≡ is_some (read_safety i)
  read_safety-takes (safety_code code) = refl
  read_safety-takes i = refl

  read_program-takes :
      (i : Input F) → takes robot_program_running_callback i ≡ is_some (read_program i)
  read_program-takes (program_running running) = refl
  read_program-takes i = refl

  read_pose-takes : (i : Input F) → takes tcp_pose_callback i ≡ is_some (read_pose i)
  read_pose-takes (tcp_pose msg) = refl
  read_pose-takes i = refl

  read_scaling-takes : (i : Input F) → takes speed_scaling_callback i ≡ is_some (read_scaling i)
  read_scaling-takes (scaling factor) = refl
  read_scaling-takes i = refl

  read_wrench-takes : (i : Input F) → takes wrench_callback i ≡ is_some (read_wrench i)
  read_wrench-takes (wrench msg) = refl
  read_wrench-takes i = refl

module _ {F : Type 0} ⦃fl : Floats F⦄ where
  fire-Shows :
      (s : Settings F) (now : ℕ) {code safe : ℤ} {program : Option Bool}
      {pose : Option (PoseStamped F)} {factor : F} {force : Option (WrenchStamped F)}
      (b : StateBridge F)
      → Shows code safe program pose factor force b
      → (fire s now tcp_pose_timer b
          ≡ (s.tcp_pose_output_topic, tcp_pose_out (published_pose now pose)))
        × (fire s now robot_status_timer b ≡ (
          s.robot_status_output_topic,
          robot_status_out (record {
            stamp = now;
            robot_mode = code;
            robot_mode_label = robot_mode_label code;
            safety_mode = safe;
            safety_mode_label = safety_mode_label safe;
            robot_program_running = truth program;
            robot_program_running_received = is_some program;
            speed_scaling = factor;
          }),
        ))
        × (fire s now wrench_timer b
            ≡ (s.wrench_output_topic, wrench_out (published_wrench now force)))
  unfolding fire publish_tcp_pose publish_robot_status publish_wrench
  fire-Shows s now b h =
      rw
        (
          h.robot_mode, h.safety_mode, h.robot_program_running, h.received, h.tcp_pose,
          h.speed_scaling, h.wrench,
        )
        (refl, refl, refl)

  -- When queues keep the last messages, and latched topics bring the last one from before the
  -- subscription: whatever was published before the bridge and after it, on whatever topics, and
  -- whenever the callbacks and the timer of the status run, a timer that fires once all that
  -- arrived is taken publishes on its own topic: the robot mode, safety mode and program state
  -- that were published last on their topics, also before the bridge, and the pose, wrench and
  -- speed scaling that were published last since then, or the values that stand for none.
  pub fire_lem :
      (s : Settings F) (arrives : Middleware (Input F)) (law : KeepsLast arrives)
      (before after : List (String × Input F)) (es : List (Event F)) (now : ℕ)
      → ((c : Subscription)
          → of_type c (heard es) ≡ arrives (qos_of c) (meant_for s c before) (meant_for s c after))
      → let b = run es new_bridge in
        let both : String → List (Event F) = λ topic. messages (on_topic topic (before ++ after)) in
        let later : String → List (Event F) = λ topic. messages (on_topic topic after) in
        let mode = last read_mode (negsuc 0) (both s.robot_mode_topic) in
        let safety = last read_safety (pos 0) (both s.safety_mode_topic) in
        let program = last read_program none (both s.robot_program_running_topic) in
        let pose = last read_pose none (later s.tcp_pose_topic) in
        let force = last read_wrench none (later s.wrench_topic) in
        let speed = last read_scaling fl_zero (later s.speed_scaling_topic) in
        (fire s now tcp_pose_timer b
          ≡ (s.tcp_pose_output_topic, tcp_pose_out (published_pose now pose)))
        × (fire s now robot_status_timer b ≡ (
          s.robot_status_output_topic,
          robot_status_out (record {
            stamp = now;
            robot_mode = mode;
            robot_mode_label = robot_mode_label mode;
            safety_mode = safety;
            safety_mode_label = safety_mode_label safety;
            robot_program_running = truth program;
            robot_program_running_received = is_some program;
            speed_scaling = speed;
          }),
        ))
        × (fire s now wrench_timer b
            ≡ (s.wrench_output_topic, wrench_out (published_wrench now force)))
  fire_lem s arrives law before after es now arrived =
      let h = run-Shows es new_bridge new_bridge-Shows in
      fire-Shows s now (run es new_bridge) (
        rw
          (
            latched-last s arrives law before after es arrived robot_mode_callback read_mode
                (negsuc 0) read_mode-takes refl,
            latched-last s arrives law before after es arrived safety_mode_callback read_safety
                (pos 0) read_safety-takes refl,
            latched-last s arrives law before after es arrived robot_program_running_callback
                read_program none read_program-takes refl,
            streaming-last s arrives law before after es arrived tcp_pose_callback read_pose none
                read_pose-takes refl,
            streaming-last s arrives law before after es arrived speed_scaling_callback read_scaling
                fl_zero read_scaling-takes refl,
            streaming-last s arrives law before after es arrived wrench_callback read_wrench none
                read_wrench-takes refl,
          )
          at h)
