-- ===== src/Servo/Closed.antt =====
-- What holds of a world through every action of the servo node: a predicate that each single step
-- of the node preserves. The steps that need a state of the controllers come with its evidence.
use Prim.Native.String.{String}
use digital_twin_based_on_un.Common.{
  ℕ, ◌≡◌, ◌⊎◌, Bool, true, List, [], ◌∷◌, Option, some, length, if◌then◌else◌,
}
use digital_twin_based_on_un.Common.Int.{ℤ}
use digital_twin_based_on_un.Common.Floats.{Floats}
use digital_twin_based_on_un.Msgs.{
  Vector3, PoseStamped, mode_idle, mode_cartesian_pose, mode_cartesian_twist,
}
use digital_twin_based_on_un.Servo.{
  trajectory, Config, Event, command, seed, listed, switched, stopped, started, reset, goal, Env,
  World, pass, emit,
}
use digital_twin_based_on_un.Servo.Commands.{spin, publish_command}
use digital_twin_based_on_un.Servo.Controllers.{mode_of}

-- The modes of the commands that the node publishes.
abbrev pub IsOwnMode : ℕ → Type 0
IsOwnMode mode = (mode ≡ mode_idle) ⊎ ((mode ≡ mode_cartesian_pose) ⊎ (mode ≡ mode_cartesian_twist))

module _ {F : Type 0} where
  -- The last switch activated the servo controller alone and succeeded, and the servo node was
  -- not asked to stop since.
  abbrev pub IsServoReady : Config F → List (Event F) → Type 0
  IsServoReady cfg [] = ⊥
  IsServoReady cfg (switched activate deactivate timeout ok ∷ es) =
      (activate ≡ cfg.servo_controller ∷ []) × (ok ≡ some true)
  IsServoReady cfg (stopped success ∷ es) = ⊥
  IsServoReady cfg (command msg ∷ es) = IsServoReady cfg es
  IsServoReady cfg (seed positions ∷ es) = IsServoReady cfg es
  IsServoReady cfg (listed controllers ∷ es) = IsServoReady cfg es
  IsServoReady cfg (started success ∷ es) = IsServoReady cfg es
  IsServoReady cfg (reset done ∷ es) = IsServoReady cfg es
  IsServoReady cfg (goal names positions span accepted ∷ es) = IsServoReady cfg es

  -- The last that the controller manager said is that the trajectory controller is active: an
  -- answer of list_controllers that shows it, or a switch to it that succeeded.
  abbrev pub IsTrajectoryReady : Config F → List (Event F) → Type 0
  IsTrajectoryReady cfg [] = ⊥
  IsTrajectoryReady cfg (switched activate deactivate timeout ok ∷ es) =
      (activate ≡ cfg.trajectory_controller ∷ []) × (ok ≡ some true)
  IsTrajectoryReady cfg (listed controllers ∷ es) = mode_of cfg controllers ≡ trajectory
  IsTrajectoryReady cfg (stopped success ∷ es) = IsTrajectoryReady cfg es
  IsTrajectoryReady cfg (command msg ∷ es) = IsTrajectoryReady cfg es
  IsTrajectoryReady cfg (seed positions ∷ es) = IsTrajectoryReady cfg es
  IsTrajectoryReady cfg (started success ∷ es) = IsTrajectoryReady cfg es
  IsTrajectoryReady cfg (reset done ∷ es) = IsTrajectoryReady cfg es
  IsTrajectoryReady cfg (goal names positions span accepted ∷ es) = IsTrajectoryReady cfg es

  -- What a home goal needs.
  abbrev pub IsHomeReady : Config F → List (Event F) → Type 0
  IsHomeReady cfg es = if cfg.auto_switch_for_home then IsTrajectoryReady cfg es else (true ≡ true)

  pub record Closed {ℓ} ⦃fl : Floats F⦄ (env : Env F) (cfg : Config F) (P : World F → Type ℓ)
      : Type ℓ where
    pub passes : (w : World F) → P w → P (pass w)
    pub spins : (w : World F) → P w → P (spin env w)
    pub lists :
        (controllers : Option (List (String × String))) (w : World F)
        → P w
        → P (emit (listed controllers) w)
    pub switches :
        (activate deactivate : List String) (timeout : ℤ × ℤ) (ok : Option Bool) (w : World F)
        → P w
        → P (emit (switched activate deactivate timeout ok) w)
    pub stops : (success : Option Bool) (w : World F) → P w → P (emit (stopped success) w)
    pub resets : (done : Bool) (w : World F) → P w → P (emit (reset done) w)
    pub starts :
        (success : Option Bool) (w : World F)
        → IsServoReady cfg w.trace
        → P w
        → P (emit (started success) w)
    pub seeds :
        (positions : List F) (w : World F)
        → length positions ≡ length cfg.home_joint_names
        → P w
        → P (emit (seed positions) w)
    pub goals :
        (span : ℤ × ℤ) (accepted : Bool) (w : World F)
        → length cfg.home_joint_names ≡ length cfg.home_joint_positions
        → IsHomeReady cfg w.trace
        → P w
        → P (emit (goal cfg.home_joint_names cfg.home_joint_positions span accepted) w)
    pub commands :
        (linear angular : Vector3 F) (mode : ℕ) (pose : Option (PoseStamped F)) (w : World F)
        → IsOwnMode mode
        → P w
        → P (publish_command env cfg linear angular mode pose w)
    pub keeps_home :
        (pose : Option (PoseStamped F)) (w : World F)
        → P w
        → P (record w { node = record w.node { home_pose = pose } })
    pub keeps_zero :
        (pose : Option (PoseStamped F)) (w : World F)
        → P w
        → P (record w { node = record w.node { zero_pose = pose } })
    pub clears : (w : World F) → P w → P (record w { node = record w.node { held_keys = [] } })
