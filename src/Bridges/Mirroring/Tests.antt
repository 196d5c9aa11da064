-- ===== src/Bridges/Mirroring/Tests.antt =====
-- A joint state that Unity sees through a bridge that started between two messages.
use digital_twin_based_on_un.Common.{◌≡◌, refl, List, [], ◌∷◌, none, some}
use digital_twin_based_on_un.Common.Int.{ℤ, pos}
use digital_twin_based_on_un.Common.Samples.{whole_floats}
use digital_twin_based_on_un.Topics.{final, on_topic}
use digital_twin_based_on_un.Topics.Samples.{arrives, arrives-KeepsLast}
use digital_twin_based_on_un.Msgs.{JointState}
use digital_twin_based_on_un.Params.Mirror.{Settings}
use digital_twin_based_on_un.Bridges.Relays.{relay, joint_state_bridge}
use digital_twin_based_on_un.Bridges.Mirroring.{joint_states, Output, Shows, relay_lem}

-- Six joints, in the driver's order, with these positions and no velocity.
abbrev joints_at : List ℤ → JointState ℤ
joints_at positions = record {
  stamp = 5;
  name =
      "elbow_joint" ∷ "shoulder_lift_joint" ∷ "shoulder_pan_joint" ∷ "wrist_1_joint"
      ∷ "wrist_2_joint" ∷ "wrist_3_joint" ∷ [];
  position = positions;
  velocity = [];
  effort = pos 33 ∷ pos 22 ∷ pos 11 ∷ pos 44 ∷ pos 55 ∷ pos 66 ∷ [];
}

abbrev early : JointState ℤ
early = joints_at (pos 30 ∷ pos 20 ∷ pos 10 ∷ pos 40 ∷ pos 50 ∷ pos 60 ∷ [])

abbrev late : JointState ℤ
late = joints_at (pos 3 ∷ pos 2 ∷ pos 1 ∷ pos 4 ∷ pos 5 ∷ pos 6 ∷ [])

abbrev partial : JointState ℤ
partial = joints_at (pos 3 ∷ [])

abbrev settings : Settings
settings = record { input_topic = "/joint_states"; output_topic = "/unity/joint_states" }

relay_lem_example :
    (o : Output ℤ joint_states) × (final none (
        on_topic "/unity/joint_states"
          (relay (joint_state_bridge settings) ((10, partial) ∷ (20, late) ∷ [])))
      ≡ some o)
    × Shows ℤ joint_states late o
unfolding joint_state_bridge
relay_lem_example =
    relay_lem ℤ settings joint_states arrives arrives-KeepsLast (("/joint_states", early) ∷ [])
      (("/joint_states", partial) ∷ ("/other", early) ∷ ("/joint_states", late) ∷ [])
      ((10, partial) ∷ (20, late) ∷ []) late refl refl refl
