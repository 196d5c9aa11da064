-- ===== src/Servo/Script.antt =====
-- The steps of the toggle of the motion controller and of the way to home, as a script: what the
-- servo node does at its interfaces, newest first, when the services answer the same all along.
use Prim.Native.String.{String}
use digital_twin_based_on_un.Common.{
  ℕ, zero, suc, length, ◌==◌, not, ◌&&◌, ◌≡◌, Bool, true, List, [], ◌∷◌, Option, none, some, max,
  if◌then◌else◌,
}
use digital_twin_based_on_un.Common.Int.{ℤ, pos, pos_part}
use digital_twin_based_on_un.Common.Floats.{Floats}
use digital_twin_based_on_un.Msgs.{PoseStamped, mode_cartesian_pose}
use digital_twin_based_on_un.Servo.{
  Node, command, Config, Event, seed, listed, switched, stopped, started, reset, goal, Env,
}
use digital_twin_based_on_un.Servo.Commands.{pose_command}
use digital_twin_based_on_un.Servo.Home.{is_empty}
use digital_twin_based_on_un.Servo.Controllers.{
  is_trajectory, is_servo, mode_of, answered, split_seconds,
}

-- What the services answer.
pub record Replies : Type 0 where
  pub controllers : Option (List (String × String))
  pub switch_ok : Option Bool
  pub success : Option Bool
  pub reset_done : Bool
  pub accepted : Bool

-- The services are there, and answer the same whenever they are called.
pub record Steady {F : Type 0} (env : Env F) (a : Replies) : Type 0 where
  pub present : (k : ℕ) → (env k).ready ≡ true
  pub lists : (k : ℕ) → (env k).controllers ≡ a.controllers
  pub switches : (k : ℕ) → (env k).switch_ok ≡ a.switch_ok
  pub triggers : (k : ℕ) → (env k).success ≡ a.success
  pub resets : (k : ℕ) → (env k).reset_done ≡ a.reset_done
  pub accepts : (k : ℕ) → (env k).accepted ≡ a.accepted

module _ {F : Type 0} where
  abbrev pub times : ℕ → Event F → List (Event F) → List (Event F)
  times zero e es = es
  times (suc n) e es = times n e (e ∷ es)

  -- The seeds, when seeding is on and the positions are known.
  abbrev pub seeds : Config F → Option (List F) → ℤ → List (Event F) → List (Event F)
  seeds cfg none count es = es
  seeds cfg (some positions) count es =
      if cfg.seed_servo_on_switch then times (max (pos_part count) 1) (seed positions) es else es

module _ {F : Type 0} ⦃fl : Floats F⦄ (cfg : Config F) (a : Replies) where
  -- The request to switch to the servo controller, from the trace before it.
  abbrev pub requested : Option (List F) → List (Event F) → List (Event F)
  requested positions es =
      switched (cfg.servo_controller ∷ [])
        (if is_trajectory (mode_of cfg a.controllers) then cfg.trajectory_controller ∷ [] else [])
        (split_seconds cfg.switch_controller_timeout_s) a.switch_ok
      ∷ seeds cfg positions (pos 1) (
          if cfg.manage_servo_node_on_switch
          then stopped a.success ∷ listed a.controllers ∷ es
          else listed a.controllers ∷ es)

  -- The rest of the switch to the servo controller.
  abbrev pub finished : Option (List F) → List (Event F) → List (Event F)
  finished positions es =
      let seeded = seeds cfg positions cfg.servo_seed_publish_count es in
      if cfg.manage_servo_node_on_switch
      then started a.success ∷ reset a.reset_done ∷ seeded
      else seeded

  -- The switch to the trajectory controller.
  abbrev pub to_trajectory_from : List (Event F) → List (Event F)
  to_trajectory_from es =
      switched (cfg.trajectory_controller ∷ [])
        (if is_servo (mode_of cfg a.controllers) then cfg.servo_controller ∷ [] else [])
        (split_seconds cfg.switch_controller_timeout_s) a.switch_ok
      ∷ (if cfg.manage_servo_node_on_switch then stopped a.success ∷ es else es)

  -- What the toggle adds to a trace, from the answers and the positions of the joints.
  abbrev pub toggled : Option (List F) → List (Event F) → List (Event F)
  toggled positions es =
      if is_trajectory (mode_of cfg a.controllers)
      then (let asked = requested positions (listed a.controllers ∷ es) in
          if answered a.switch_ok then finished positions asked else asked)
      else to_trajectory_from (listed a.controllers ∷ es)

  -- What the joint trajectory to home adds to a trace, when the servo controller is not restored.
  abbrev pub homed : List (Event F) → List (Event F)
  homed es =
      if length cfg.home_joint_names == length cfg.home_joint_positions
      then (if cfg.auto_switch_for_home
          then (if is_trajectory (mode_of cfg a.controllers)
              then sent (listed a.controllers ∷ es)
              else (if answered a.switch_ok
                  then sent (to_trajectory_from (listed a.controllers ∷ es))
                  else to_trajectory_from (listed a.controllers ∷ es)))
          else sent es)
      else es
    where
      sent : List (Event F) → List (Event F)
      sent es =
          goal cfg.home_joint_names cfg.home_joint_positions (split_seconds cfg.home_duration_s)
            a.accepted
          ∷ es

  -- What the action h adds: the joint trajectory, else a command for the home pose that is kept.
  abbrev pub gone_home : ℕ → Node F → List (Event F) → List (Event F)
  gone_home now n es =
      if not (is_empty cfg.home_joint_names) && not (is_empty cfg.home_joint_positions)
      then homed es
      else posed n.home_pose
    where
      posed : Option (PoseStamped F) → List (Event F)
      posed none = es
      posed (some pose) = command (pose_command cfg now n.sequence_id mode_cartesian_pose pose) ∷ es
