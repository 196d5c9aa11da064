-- ===== src/Bridges/Complete.antt =====
-- What the callbacks of the joint bridges publish, by the last values in the message.
use Prim.Native.String.{String}
use text.Mathlib.Text.{◌==◌ as str_eq}
use text.Mathlib.TextEquality.{eq_iff}
use digital_twin_based_on_un.Common.{
  ◌≡◌, refl, ◌∙◌, inl, inr, Bool, true, ◌&&◌, List, [], ◌∷◌, ◌++◌, Option, none, some, arith,
  list_laws, if◌then◌else◌, map, is_some, Option-cases,
}
use digital_twin_based_on_un.Common.Floats.{Floats, fl_zero}
use digital_twin_based_on_un.Msgs.{JointState}
use digital_twin_based_on_un.Bridges.Joints.{
  joint_order, Dict, lookup, insert, fill, JointStateUnity, JointTorqueUnity, get_or, append_joints,
  joint_state_callback, append_torques, joint_torque_callback,
}

-- The value at the last position where `name` stands and there is a value.
abbrev pub last_value {ℓ} : {V : Type ℓ} → String → List String → List V → Option V
last_value name [] values = none
last_value name (n ∷ names) [] = none
last_value name (n ∷ names) (v ∷ values) = elim (last_value name names values) [
  | none ↦ if str_eq n name then some v else none
  | some later ↦ some later
]

lookup-insert {ℓ} :
    {V : Type ℓ} (k j : String) (v : V) (d : List (String × V))
    → lookup j (insert k v d) ≡ (if str_eq k j then some v else lookup j d)
lookup-insert k j v [] = refl
lookup-insert k j v ((i, w) ∷ d) =
    ground (arith, eq_iff k j, eq_iff i k, eq_iff i j, lookup-insert k j v d)

lookup-fill :
    {V : Type 0} (name : String) (names : List String) (values : List V) (d : List (String × V))
    → lookup name (fill d names values)
      ≡ (elim (last_value name names values) [ none ↦ lookup name d | some v ↦ some v ])
unfolding fill
lookup-fill name [] values d = refl
lookup-fill name (n ∷ names) [] d = refl
lookup-fill name (n ∷ names) (v ∷ values) d =
    ground (arith, lookup-fill name names values (insert n v d), lookup-insert n name v d)

last_value-fill :
    {V : Type 0} (names : List String) (values : List V) (name : String)
    → lookup name (fill [] names values) ≡ last_value name names values
last_value-fill names values name = ground (arith, lookup-fill name names values [])

-- Every name has a value.
abbrev pub all_known {ℓ} : {V : Type ℓ} → (String → Option V) → List String → Bool
all_known f [] = true
all_known f (name ∷ order) = is_some (f name) && all_known f order

module _ {F : Type 0} ⦃fl : Floats F⦄ where
  module _ (ps vs es : Dict F) (pf vf ef : String → Option F) where
    append_joints_lem :
        ((n : String) → lookup n ps ≡ pf n)
        → ((n : String) → lookup n vs ≡ vf n)
        → ((n : String) → lookup n es ≡ ef n)
        → (order : List String) (out : JointStateUnity F)
        → append_joints ps vs es out order ≡ (
            if all_known pf order
            then some (record {
              names = out.names ++ order;
              positions = out.positions ++ map (λ n. fl.degrees (get_or (pf n) fl_zero)) order;
              velocities = out.velocities ++ map (λ n. fl.degrees (get_or (vf n) fl_zero)) order;
              efforts = out.efforts ++ map (λ n. get_or (ef n) fl_zero) order;
            })
            else none)
    unfolding append_joints
    append_joints_lem hp hv he [] out = simp list_laws
    append_joints_lem hp hv he (n ∷ order) out = elim (Option-cases (pf n)) [
      | inl missing ↦ rw (append_joints, hp n, missing)
      | inr (x, e) ↦
          rw (append_joints, hp n, e)
            (append_joints_lem hp hv he order (record {
              names = out.names ++ n ∷ [];
              positions = out.positions ++ fl.degrees x ∷ [];
              velocities = out.velocities ++ fl.degrees (get_or (lookup n vs) fl_zero) ∷ [];
              efforts = out.efforts ++ get_or (lookup n es) fl_zero ∷ [];
            })
              ∙ simp (list_laws, hv n, he n))
    ]

  -- A joint state is published exactly when each of the six joints has a position; the message
  -- lists the joints in the fixed order with the last position and velocity of each, in degrees,
  -- and its last effort, and a missing velocity or effort is zero.
  pub joint_state_callback_lem :
      (msg : JointState F)
      → let position_of = λ (n : String). last_value n msg.name msg.position in
        let velocity_of = λ (n : String). last_value n msg.name msg.velocity in
        let effort_of = λ (n : String). last_value n msg.name msg.effort in
        joint_state_callback msg ≡ (
          if all_known position_of joint_order
          then some (record {
            names = joint_order;
            positions = map (λ n. fl.degrees (get_or (position_of n) fl_zero)) joint_order;
            velocities = map (λ n. fl.degrees (get_or (velocity_of n) fl_zero)) joint_order;
            efforts = map (λ n. get_or (effort_of n) fl_zero) joint_order;
          })
          else none)
  unfolding joint_state_callback
  joint_state_callback_lem msg =
      append_joints_lem (fill [] msg.name msg.position) (fill [] msg.name msg.velocity)
        (fill [] msg.name msg.effort) (λ n. last_value n msg.name msg.position)
        (λ n. last_value n msg.name msg.velocity) (λ n. last_value n msg.name msg.effort)
        (last_value-fill msg.name msg.position) (last_value-fill msg.name msg.velocity)
        (last_value-fill msg.name msg.effort) joint_order
        (record { names = []; positions = []; velocities = []; efforts = [] })

module _ {F : Type 0} (default : F) where
  append_torques_lem :
      (ts : Dict F) (tf : String → Option F)
      → ((n : String) → lookup n ts ≡ tf n)
      → (order : List String) (out : JointTorqueUnity F)
      → append_torques ts out order ≡ (
          if all_known tf order
          then some (record out {
            names = out.names ++ order;
            torques_nm = out.torques_nm ++ map (λ n. get_or (tf n) default) order;
          })
          else none)
  unfolding append_torques
  append_torques_lem ts tf h [] out = simp list_laws
  append_torques_lem ts tf h (n ∷ order) out = elim (Option-cases (tf n)) [
    | inl missing ↦ rw (append_torques, h n, missing)
    | inr (x, e) ↦
        rw (append_torques, h n, e)
          (append_torques_lem ts tf h order
              (record out { names = out.names ++ n ∷ []; torques_nm = out.torques_nm ++ x ∷ [] })
            ∙ simp list_laws)
  ]

  -- Joint torques are published exactly when each of the six joints has an effort; the message
  -- keeps the stamp and lists the joints in the fixed order, each with its last effort unchanged.
  pub joint_torque_callback_lem :
      (msg : JointState F)
      → let effort_of = λ (n : String). last_value n msg.name msg.effort in
        joint_torque_callback msg ≡ (
          if all_known effort_of joint_order
          then some (record {
            stamp = msg.stamp;
            names = joint_order;
            torques_nm = map (λ n. get_or (effort_of n) default) joint_order;
          })
          else none)
  unfolding joint_torque_callback
  joint_torque_callback_lem msg =
      append_torques_lem (fill [] msg.name msg.effort) (λ n. last_value n msg.name msg.effort)
        (last_value-fill msg.name msg.effort) joint_order
        (record { stamp = msg.stamp; names = []; torques_nm = [] })
