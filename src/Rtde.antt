-- ===== src/Rtde.antt =====
-- The torque source: ur_rtde_torque_bridge/ur_rtde_torque_bridge/rtde_torque_source.py and
-- torque_source.py under the repository's src/. A byte is a number below 256, and the socket is
-- the list of what its calls of `recv` return, in order.
pub mod Frames
pub mod Socket
pub mod Stream
pub mod Polling
pub mod Stalls
pub mod Handshake
pub mod Packets
pub mod Connect
pub mod Publisher
pub mod Sessions
pub mod Recovery
pub mod Contract
mod Tests
use Prim.Native.String.{String}
use digital_twin_based_on_un.Common.{
  ℕ, zero, suc, ◌+◌, ◌-◌, ◌*◌, ◌/◌, ◌%◌, Bool, true, false, ◌||◌, ◌&&◌, ◌==◌, List, [], ◌∷◌, ◌++◌,
  Option, none, some, if◌then◌else◌, ltb, leb, length, take, drop,
}
use digital_twin_based_on_un.Common.Int.{ℤ, pos}
use digital_twin_based_on_un.Common.Floats.{Floats, fl_zero}

abbrev pub ur7e_joint_order : List String
ur7e_joint_order =
    "shoulder_pan_joint" ∷ "shoulder_lift_joint" ∷ "elbow_joint" ∷ "wrist_1_joint" ∷ "wrist_2_joint"
    ∷ "wrist_3_joint" ∷ []

-- The packet types.
abbrev pub request_protocol_version : ℕ
request_protocol_version = 86

abbrev pub setup_outputs_type : ℕ
setup_outputs_type = 79

abbrev pub start_type : ℕ
start_type = 83

abbrev pub data_package : ℕ
data_package = 85

abbrev pub protocol_version : ℕ
protocol_version = 2

-- A packet: its type and its payload.
abbrev pub Packet : Type 0
Packet = ℕ × List ℕ

-- The bytes that `_send` writes: the size of the whole packet in two bytes, the type, the payload.
unfoldable pub frame : ℕ → List ℕ → List ℕ
frame ptype payload = let size = 3 + length payload in (size / 256) ∷ (size % 256) ∷ ptype ∷ payload

-- One turn of the loop of `get_torques` up to the break: the first packet of the buffer and the
-- bytes behind it, or `none` where the loop ends (fewer than three bytes, a size below three, or
-- a packet that is not complete).
unfoldable pub next_packet : List ℕ → Option (Packet × List ℕ)
next_packet [] = none
next_packet (b0 ∷ []) = none
next_packet (b0 ∷ b1 ∷ []) = none
next_packet (b0 ∷ b1 ∷ ptype ∷ body) =
    let size = b0 * 256 + b1 in
    if ltb size 3 || ltb (3 + length body) size
    then none
    else some ((ptype, take (size - 3) body), drop (size - 3) body)

module _ {F : Type 0} ⦃fl : Floats F⦄ where
  -- `struct.unpack(">6d", payload[1:49])`
  abbrev pub unpack_six : List ℕ → List F
  unpack_six payload =
      fl.unpack_double (take 8 (drop 1 payload))
      ∷ fl.unpack_double (take 8 (drop 9 payload))
      ∷ fl.unpack_double (take 8 (drop 17 payload))
      ∷ fl.unpack_double (take 8 (drop 25 payload))
      ∷ fl.unpack_double (take 8 (drop 33 payload))
      ∷ fl.unpack_double (take 8 (drop 41 payload))
      ∷ []

  -- `latest` after a packet.
  unfoldable pub note_sample : Packet → Option (List F) → Option (List F)
  note_sample (ptype, payload) latest =
      if ptype == data_package && leb 49 (length payload) then some (unpack_six payload) else latest

  -- The loop of `get_torques` over the buffer, with fuel: the bytes left and the latest sample.
  unfoldable pub drain_packets : ℕ → List ℕ → Option (List F) → List ℕ × Option (List F)
  drain_packets zero buf latest = (buf, latest)
  drain_packets (suc fuel) buf latest = elim (next_packet buf) [
    | none ↦ (buf, latest)
    | some (packet, rest) ↦ drain_packets fuel rest (note_sample packet latest)
  ]
