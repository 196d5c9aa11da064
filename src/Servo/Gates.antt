-- ===== src/Servo/Gates.antt =====
-- What the servo node asks of the controllers, over any run of its loop.
use digital_twin_based_on_un.Common.{ℕ, ◌≡◌, List, [], ◌∷◌, Option, length}
use digital_twin_based_on_un.Common.Floats.{Floats}
use digital_twin_based_on_un.Servo.{
  Config, Event, command, seed, listed, switched, stopped, started, reset, goal, Env, World, pass,
  emit,
}
use digital_twin_based_on_un.Servo.Commands.{spin, publish_command}
use digital_twin_based_on_un.Servo.Home.{new_node}
use digital_twin_based_on_un.Servo.Loop.{spin_unity_keyboard}
use digital_twin_based_on_un.Servo.Closed.{Closed, IsServoReady, IsHomeReady}
use digital_twin_based_on_un.Servo.Dispatch.{spin_unity_keyboard-Closed}

module _ {F : Type 0} where
  -- Each request in the trace was made in a state of the controllers that allows it.
  abbrev pub IsGated : Config F → List (Event F) → Type 0
  IsGated cfg [] = Unit
  IsGated cfg (started success ∷ es) = IsServoReady cfg es × IsGated cfg es
  IsGated cfg (goal names positions span accepted ∷ es) =
      (length names ≡ length positions) × IsHomeReady cfg es × IsGated cfg es
  IsGated cfg (seed positions ∷ es) =
      (length positions ≡ length cfg.home_joint_names) × IsGated cfg es
  IsGated cfg (command msg ∷ es) = IsGated cfg es
  IsGated cfg (listed controllers ∷ es) = IsGated cfg es
  IsGated cfg (switched activate deactivate timeout ok ∷ es) = IsGated cfg es
  IsGated cfg (stopped success ∷ es) = IsGated cfg es
  IsGated cfg (reset done ∷ es) = IsGated cfg es

module _ {F : Type 0} ⦃fl : Floats F⦄ (env : Env F) (cfg : Config F) where
  IsGated-Closed : Closed env cfg (λ w. IsGated cfg w.trace)
  unfolding pass emit spin publish_command
  IsGated-Closed = record {
    passes = λ w h. h;
    spins = λ w h. h;
    lists = λ controllers w h. h;
    switches = λ activate deactivate timeout ok w h. h;
    stops = λ success w h. h;
    resets = λ done w h. h;
    starts = λ success w ready h. (ready, h);
    seeds = λ positions w same h. (same, h);
    goals = λ span accepted w same ready h. (same, ready, h);
    commands = λ linear angular mode pose w own h. h;
    keeps_home = λ pose w h. h;
    keeps_zero = λ pose w h. h;
    clears = λ w h. h;
  }

  -- After any number of rounds of the loop of a new node, whatever the environment does: the servo
  -- node was only asked to start when the last switch of controllers activated the servo
  -- controller alone and succeeded and no stop was asked since; with the automatic switch, a home
  -- goal was only sent when the last that the controller manager said is that the trajectory
  -- controller is active; a goal has as many positions as joints, and so has a seed.
  pub spin_unity_keyboard-IsGated :
      (home rpy xyzw : Option (List F)) (n fuel next_publish : ℕ)
      → let start : World F = record {
        node = new_node cfg home rpy xyzw;
        moment = 0;
        trace = [];
      } in
        IsGated cfg (spin_unity_keyboard n fuel env cfg (start, next_publish)).0.trace
  spin_unity_keyboard-IsGated home rpy xyzw n fuel next_publish =
      let start : World F = record { node = new_node cfg home rpy xyzw; moment = 0; trace = [] } in
      spin_unity_keyboard-Closed env cfg (λ w. IsGated cfg w.trace) IsGated-Closed (λ rest w h. h) n
        fuel (start, next_publish) tt
