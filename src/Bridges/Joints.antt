-- ===== src/Bridges/Joints.antt =====
-- The joint bridges: joint_state_bridge_ros2unity.py and joint_torque_bridge_ros2unity.py.
-- A callback returns the message that it publishes, or none when it drops the input.
use Prim.Native.String.{String}
use text.Mathlib.Text.{◌==◌ as str_eq}
use digital_twin_based_on_un.Common.{ℕ, List, [], ◌∷◌, ◌++◌, Option, none, some, if◌then◌else◌}
use digital_twin_based_on_un.Common.Floats.{Floats, fl_zero}
use digital_twin_based_on_un.Msgs.{JointState}

abbrev pub joint_order : List String
joint_order =
    "shoulder_pan_joint" ∷ "shoulder_lift_joint" ∷ "elbow_joint" ∷ "wrist_1_joint" ∷ "wrist_2_joint"
    ∷ "wrist_3_joint" ∷ []

-- A Python dict in insertion order; a second write to a key takes the place of the first.
abbrev pub Dict : Type 0 → Type 0
Dict V = List (String × V)

abbrev pub lookup {ℓ} : {V : Type ℓ} → String → List (String × V) → Option V
lookup k [] = none
lookup k ((j, v) ∷ d) = if str_eq j k then some v else lookup k d

abbrev pub insert {ℓ} : {V : Type ℓ} → String → V → List (String × V) → List (String × V)
insert k v [] = (k, v) ∷ []
insert k v ((j, w) ∷ d) = if str_eq j k then (j, v) ∷ d else (j, w) ∷ insert k v d

-- The loop over `enumerate(names)` that fills one map: name `i` gets value `i` while there is one.
unfoldable pub fill {ℓ} :
    {V : Type ℓ} → List (String × V) → List String → List V → List (String × V)
fill d [] values = d
fill d (name ∷ names) [] = d
fill d (name ∷ names) (v ∷ values) = fill (insert name v d) names values

-- digital_twin_interfaces/JointStateUnity
pub record JointStateUnity (F : Type 0) : Type 0 where
  pub names : List String
  pub positions : List F
  pub velocities : List F
  pub efforts : List F

-- digital_twin_interfaces/JointTorqueUnity
pub record JointTorqueUnity (F : Type 0) : Type 0 where
  pub stamp : ℕ
  pub names : List String
  pub torques_nm : List F

abbrev pub get_or {ℓ} : {V : Type ℓ} → Option V → V → V
get_or none default = default
get_or (some v) default = v

module _ {F : Type 0} ⦃fl : Floats F⦄ where
  -- The loop over `joint_order` of `joint_state_callback`, which appends to the output message
  -- and returns early at a joint without a position.
  unfoldable pub append_joints :
      Dict F → Dict F → Dict F → JointStateUnity F → List String → Option (JointStateUnity F)
  append_joints positions velocities efforts out [] = some out
  append_joints positions velocities efforts out (name ∷ order) = elim (lookup name positions) [
    | none ↦ none
    | some position_rad ↦
        append_joints positions velocities efforts
          (record {
            names = out.names ++ name ∷ [];
            positions = out.positions ++ fl.degrees position_rad ∷ [];
            velocities =
                out.velocities ++ fl.degrees (get_or (lookup name velocities) fl_zero) ∷ [];
            efforts = out.efforts ++ get_or (lookup name efforts) fl_zero ∷ [];
          })
          order
  ]

  unfoldable pub joint_state_callback : JointState F → Option (JointStateUnity F)
  joint_state_callback msg =
      append_joints (fill [] msg.name msg.position) (fill [] msg.name msg.velocity)
        (fill [] msg.name msg.effort)
        (record { names = []; positions = []; velocities = []; efforts = [] }) joint_order

module _ {F : Type 0} where
  -- The loop over `joint_order` of `joint_torque_callback`.
  unfoldable pub append_torques :
      Dict F → JointTorqueUnity F → List String → Option (JointTorqueUnity F)
  append_torques torques out [] = some out
  append_torques torques out (name ∷ order) = elim (lookup name torques) [
    | none ↦ none
    | some torque ↦
        append_torques torques
          (record out {
            names = out.names ++ name ∷ [];
            torques_nm = out.torques_nm ++ torque ∷ [];
          })
          order
  ]

  unfoldable pub joint_torque_callback : JointState F → Option (JointTorqueUnity F)
  joint_torque_callback msg =
      append_torques (fill [] msg.name msg.effort)
        (record { stamp = msg.stamp; names = []; torques_nm = [] }) joint_order
