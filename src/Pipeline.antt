-- ===== src/Pipeline.antt =====
-- From the robot's bytes to Unity: the torque source, the publisher node and the joint torque
-- bridge in a row, over the topic /joint_torques.
pub mod Teleop
pub mod Mirrored
pub mod Samples
mod Tests
use Prim.Native.String.{String}
use digital_twin_based_on_un.Common.{
  ℕ, zero, suc, ◌≡◌, refl, ◌∙◌, inl, inr, true, List, [], ◌∷◌, ◌++◌, Option, none, some, arith,
  length, All, Option-cases, Bool-cases, leb, ◌==◌, ◌&&◌,
}
use digital_twin_based_on_un.Common.Floats.{Floats}
use digital_twin_based_on_un.Rtde.{Packet, next_packet, note_sample, drain_packets, unpack_six}
use digital_twin_based_on_un.Rtde.Stream.{frames, FitsSize, last_sample}
use digital_twin_based_on_un.Rtde.Socket.{Source, is_connected, get_torques}
use digital_twin_based_on_un.Rtde.Polling.{Read, bytes_of, deliver, get_torques-frames}
use digital_twin_based_on_un.Rtde.Publisher.{torque_message, publish_torques}
use digital_twin_based_on_un.Bridges.Joints.{
  joint_order, fill, JointTorqueUnity, append_torques, joint_torque_callback,
}

module _ {F : Type 0} ⦃fl : Floats F⦄ where
  -- A sample is the six numbers of one payload.
  abbrev IsSample : Option (List F) → Type 0
  IsSample none = Unit {0}
  IsSample (some torques) = (payload : List ℕ) × (torques ≡ unpack_six payload)

  note_sample-IsSample :
      (p : Packet) (latest : Option (List F)) → IsSample latest → IsSample (note_sample p latest)
  unfolding note_sample
  note_sample-IsSample (t, payload) latest h =
      elim (Bool-cases (t == 85 && leb 49 (length payload))) [
        | inl holds ↦ rw (note_sample, holds) (payload, refl)
        | inr other ↦ rw (note_sample, other) h
      ]

  last_sample-IsSample :
      (ps : List Packet) (latest : Option (List F))
      → IsSample latest
      → IsSample (last_sample latest ps)
  last_sample-IsSample [] latest h = h
  last_sample-IsSample (p ∷ ps) latest h =
      last_sample-IsSample ps (note_sample p latest) (note_sample-IsSample p latest h)

  bridge-unpack_six :
      (now : ℕ) (payload : List ℕ)
      → joint_torque_callback {F = F} (torque_message now (unpack_six payload))
        ≡ some (record { stamp = now; names = joint_order; torques_nm = unpack_six payload })
  unfolding joint_torque_callback append_torques fill
  bridge-unpack_six now payload = refl

  bridge-IsSample :
      (now : ℕ) (torques : List F)
      → IsSample (some torques)
      → joint_torque_callback {F = F} (torque_message now torques)
        ≡ some (record { stamp = now; names = joint_order; torques_nm = torques })
  bridge-IsSample now torques (payload, e) = rw e (bridge-unpack_six now payload)

  -- When the bytes at hand are whole packets and an incomplete rest, and the last data packet
  -- holds the torques, the publisher publishes them and the bridge passes the message to Unity
  -- with the same stamp, the joints in its fixed order and the torques unchanged.
  pub publish_torques-joint_torque_callback :
      (now : ℕ) (s : Source) (rs : List Read) (ps : List Packet) (rest : List ℕ) (t : List F)
      → is_connected s ≡ true
      → s.buf ++ bytes_of rs ≡ frames ps ++ rest
      → All FitsSize ps
      → next_packet rest ≡ none
      → last_sample none ps ≡ some t
      → ((publish_torques now s (deliver rs)).1 ≡ some (torque_message now t))
        × (joint_torque_callback {F = F} (torque_message now t)
            ≡ some (record { stamp = now; names = joint_order; torques_nm = t }))
  unfolding publish_torques
  publish_torques-joint_torque_callback now s rs ps rest t h e fits stuck last = (
    rw (publish_torques, get_torques-frames {F = F} s rs ps rest h e fits stuck, last),
    bridge-IsSample now t (rw last at (last_sample-IsSample ps none tt)),
  )
