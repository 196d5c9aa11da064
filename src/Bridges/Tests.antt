-- ===== src/Bridges/Tests.antt =====
-- The joint bridges over concrete messages, and an instance of each theorem.
use Prim.Native.String.{String}
use digital_twin_based_on_un.Common.{◌≡◌, refl, [], ◌∷◌, none, some, if◌then◌else◌, map}
use digital_twin_based_on_un.Common.Int.{ℤ, pos}
use digital_twin_based_on_un.Common.Floats.{fl_zero}
use digital_twin_based_on_un.Common.Samples.{whole_floats}
use digital_twin_based_on_un.Msgs.{JointState}
use digital_twin_based_on_un.Bridges.Joints.{
  joint_order, fill, get_or, append_joints, joint_state_callback, joint_torque_callback,
  append_torques,
}
use digital_twin_based_on_un.Bridges.Complete.{last_value, all_known, joint_state_callback_lem}

-- The driver's order differs from the bridge's, and there are fewer velocities than names.
abbrev joints : JointState ℤ
joints = record {
  stamp = 5;
  name =
      "elbow_joint" ∷ "shoulder_lift_joint" ∷ "shoulder_pan_joint" ∷ "wrist_1_joint"
      ∷ "wrist_2_joint" ∷ "wrist_3_joint" ∷ [];
  position = pos 3 ∷ pos 2 ∷ pos 1 ∷ pos 4 ∷ pos 5 ∷ pos 6 ∷ [];
  velocity = pos 30 ∷ pos 20 ∷ [];
  effort = pos 33 ∷ pos 22 ∷ pos 11 ∷ pos 44 ∷ pos 55 ∷ pos 66 ∷ [];
}

joints_reordered :
    joint_state_callback joints
    ≡ some (record {
      names = joint_order;
      positions = pos 1 ∷ pos 2 ∷ pos 3 ∷ pos 4 ∷ pos 5 ∷ pos 6 ∷ [];
      velocities = pos 0 ∷ pos 20 ∷ pos 30 ∷ pos 0 ∷ pos 0 ∷ pos 0 ∷ [];
      efforts = pos 11 ∷ pos 22 ∷ pos 33 ∷ pos 44 ∷ pos 55 ∷ pos 66 ∷ [];
    })
unfolding joint_state_callback append_joints fill
joints_reordered = refl

missing_joint_drops_the_message :
    joint_torque_callback (record joints { name = "elbow_joint" ∷ [] }) ≡ none
unfolding joint_torque_callback append_torques fill
missing_joint_drops_the_message = refl

joint_state_callback_lem_example :
    let position_of = λ (n : String). last_value n joints.name joints.position in
    let velocity_of = λ (n : String). last_value n joints.name joints.velocity in
    let effort_of = λ (n : String). last_value n joints.name joints.effort in
    joint_state_callback joints ≡ (
      if all_known position_of joint_order
      then some (record {
        names = joint_order;
        positions = map (λ n. get_or (position_of n) fl_zero) joint_order;
        velocities = map (λ n. get_or (velocity_of n) fl_zero) joint_order;
        efforts = map (λ n. get_or (effort_of n) fl_zero) joint_order;
      })
      else none)
joint_state_callback_lem_example = joint_state_callback_lem joints
