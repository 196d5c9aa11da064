-- ===== src/Servo/Queue.antt =====
-- The queue of actions of the servo node.
use Prim.Native.String.{String}
use text.Mathlib.Text.{◌==◌ as str_eq}
use digital_twin_based_on_un.Common.{ℕ, ◌≤◌, ◌≡◌, refl, true, List, [], ◌∷◌, All, arith}
use digital_twin_based_on_un.Common.Floats.{Floats}
use digital_twin_based_on_un.Servo.{
  Config, Node, Callback, keys, observation, joint_state, Env, World,
}
use digital_twin_based_on_un.Servo.Commands.{
  on_keys, on_observation, on_joint_state, handle, deliver,
}
use digital_twin_based_on_un.Servo.Closed.{Closed}

module _ {F : Type 0} where
  -- A callback that brings no action.
  abbrev pub IsQuiet : Callback F → Type 0
  IsQuiet (keys held action) = str_eq action "" ≡ true
  IsQuiet (observation now msg) = Unit
  IsQuiet (joint_state msg) = Unit

  pub deliver-pending_actions :
      (cs : List (Callback F)) (n : Node F)
      → All IsQuiet cs
      → (deliver cs n).pending_actions ≡ n.pending_actions
  unfolding deliver handle on_keys on_observation on_joint_state
  deliver-pending_actions [] n quiet = refl
  deliver-pending_actions (keys held action ∷ cs) n quiet =
      ground (arith, deliver-pending_actions cs (on_keys held action n) quiet.1)
  deliver-pending_actions (observation now msg ∷ cs) n quiet =
      ground (arith, deliver-pending_actions cs (on_observation now msg n) quiet.1)
  deliver-pending_actions (joint_state msg ∷ cs) n quiet =
      deliver-pending_actions cs (on_joint_state msg n) quiet.1

module _ {F : Type 0} ⦃fl : Floats F⦄ (env : Env F) (cfg : Config F) (since : ℕ)
    (quiet : (k : ℕ) → since ≤ k → All IsQuiet (env k).delivered) where
  -- The queue is `queue`, in the quiet time.
  abbrev Queued : List String → World F → Type 0
  Queued queue w = (since ≤ w.moment) × (w.node.pending_actions ≡ queue)
