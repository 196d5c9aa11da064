-- ===== src/Observer/Tests.antt =====
-- The observer with its default topics, and an instance of each theorem.
use digital_twin_based_on_un.Common.{ℕ, ◌≡◌, refl, List, [], ◌∷◌}
use Prim.Native.String.{String}
use digital_twin_based_on_un.Msgs.{JointState, PoseStamped}
use digital_twin_based_on_un.Observer.{
  default_topics, Message, joint_state, pose_stamped, observed_joint_velocity, observe,
}
use digital_twin_based_on_un.Observer.ReadOnly.{of_velocities, published, observe_lem}

abbrev elbow : JointState ℕ
elbow = record {
  stamp = 3;
  name = "elbow_joint" ∷ [];
  position = [];
  velocity = 7 ∷ [];
  effort = [];
}

abbrev pose : PoseStamped ℕ
pose = record { stamp = 4; frame_id = "base"; position = (1, 2, 3); orientation = (0, 0, 0, 1) }

-- A joint velocity, a pose on the topic of the velocities, and a position on another topic.
abbrev inputs : List (ℕ × String × Message ℕ)
inputs =
    (5, "/teleop/validated/joint_velocity", joint_state elbow)
    ∷ (6, "/teleop/validated/joint_velocity", pose_stamped pose)
    ∷ (7, "/joint_states", joint_state elbow)
    ∷ []

observe-inputs : observe default_topics inputs ≡ observed_joint_velocity elbow ∷ []
unfolding observe
observe-inputs = refl

observe_lem_example :
    published "/unity/cmd_observed/joint_velocity" (observe default_topics inputs)
    ≡ observed_joint_velocity elbow ∷ []
observe_lem_example = observe_lem default_topics of_velocities inputs
