-- ===== src/Rtde/Recovery.antt =====
-- The publisher node across the loss of a connection.
use digital_twin_based_on_un.Common.{
  ℕ, ◌≡◌, ◌≢◌, true, false, List, [], ◌∷◌, ◌++◌, Option, none, some, All, drop,
}
use digital_twin_based_on_un.Common.Floats.{Floats}
use digital_twin_based_on_un.Msgs.{JointState}
use digital_twin_based_on_un.Jog.{codes}
use digital_twin_based_on_un.Rtde.{Packet, request_protocol_version, setup_outputs_type, start_type}
use digital_twin_based_on_un.Rtde.Stream.{FitsSize}
use digital_twin_based_on_un.Rtde.Socket.{Recv}
use digital_twin_based_on_un.Rtde.Handshake.{Net, accepted, contains}
use digital_twin_based_on_un.Rtde.Packets.{deliver_packets}
use digital_twin_based_on_un.Rtde.Publisher.{torque_message}

-- The packets that a robot sends during the handshake: others before each answer, and the answers.
pub record Replies : Type 0 where
  pub before_version : List Packet
  pub version : List ℕ
  pub before_setup : List Packet
  pub setup : List ℕ
  pub before_start : List Packet
  pub started : List ℕ

-- The reads of one answer, behind the others.
abbrev pub phase : List Packet → Packet → List Recv → List Recv
phase others answer rest = deliver_packets others ++ (deliver_packets (answer ∷ []) ++ rest)

abbrev pub replying : Replies → Net
replying r = record {
  reachable = true;
  accepts = true;
  sends_version = true;
  sends_setup = true;
  sends_start = true;
  socket =
      phase r.before_version (request_protocol_version, r.version)
        (phase r.before_setup (setup_outputs_type, r.setup)
          (phase r.before_start (start_type, r.started) []));
}

-- The packets before an answer are of other types, and all fit the size field.
pub record IsPhase (others : List Packet) (answer : Packet) : Type 0 where
  pub fits : All FitsSize others
  pub differ : All (λ p. p.0 ≢ answer.0) others
  pub fit : FitsSize answer

-- The robot knows the field and accepts the start.
pub record IsWilling (r : Replies) : Type 0 where
  pub first : IsPhase r.before_version (request_protocol_version, r.version)
  pub second : IsPhase r.before_setup (setup_outputs_type, r.setup)
  pub third : IsPhase r.before_start (start_type, r.started)
  pub known : contains (codes "NOT_FOUND") (drop 1 r.setup) ≡ false
  pub agreed : accepted r.started ≡ true

module _ {F : Type 0} ⦃fl : Floats F⦄ (frequency : F) (rtde_field : List ℕ) where
  -- The messages of a sample, if there is one.
  abbrev pub messages : ℕ → Option (List F) → List (JointState F)
  messages now none = []
  messages now (some torques) = torque_message now torques ∷ []
