-- ===== src/Rtde/Sessions.antt =====
-- The publisher node over any sequence of its two timers, and across the loss of a connection.
use digital_twin_based_on_un.Common.{
  ℕ, zero, suc, ◌≡◌, inl, inr, List, [], ◌∷◌, ◌++◌, Option, none, some, length, Option-cases,
  if_lem, not, arith,
}
use digital_twin_based_on_un.Common.Floats.{Floats}
use digital_twin_based_on_un.Msgs.{JointState}
use digital_twin_based_on_un.Rtde.{
  Packet, ur7e_joint_order, next_packet, note_sample, drain_packets,
}
use digital_twin_based_on_un.Rtde.Socket.{
  Recv, Received, ok, failed, Source, is_connected, recv_all, take_latest, get_torques,
}
use digital_twin_based_on_un.Rtde.Handshake.{Net}
use digital_twin_based_on_un.Rtde.Publisher.{ensure_connected, publish_torques}

-- A timer callback: the clock and what the socket holds, or what the network lets `connect` do.
pub data Event : Type 0 where
  publish : ℕ → List Recv → Event
  reconnect : Net → Event

abbrev pub as_list {ℓ} : {A : Type ℓ} → Option A → List A
as_list none = []
as_list (some a) = a ∷ []

module _ {F : Type 0} where
  -- A sample, if there is one, has six numbers.
  abbrev pub HasSix : Option (List F) → Type 0
  HasSix none = Unit
  HasSix (some t) = length t ≡ 6

module _ {F : Type 0} ⦃fl : Floats F⦄ where
  unfoldable pub step : F → List ℕ → Source → Event → Source × List (JointState F)
  step frequency rtde_field s (publish now socket) =
      let (s', message) = publish_torques now s socket in (s', as_list message)
  step frequency rtde_field s (reconnect net) =
      let (s', sent) = ensure_connected frequency rtde_field s net in (s', [])

  -- The messages of a sequence of callbacks.
  unfoldable pub run : F → List ℕ → Source → List Event → List (JointState F)
  run frequency rtde_field s [] = []
  run frequency rtde_field s (e ∷ es) =
      let (s', out) = step frequency rtde_field s e in out ++ run frequency rtde_field s' es

  -- The message of the interface: the joints in the fixed order, and a torque for each.
  pub record IsComplete (m : JointState F) : Type 0 where
    pub order : m.name ≡ ur7e_joint_order
    pub torques : length m.effort ≡ length m.name
    pub only : (m.position ≡ []) × (m.velocity ≡ [])

  note_sample-HasSix :
      (p : Packet) (latest : Option (List F)) → HasSix latest → HasSix (note_sample p latest)
  unfolding note_sample
  note_sample-HasSix p latest h = ground arith

  drain_packets-HasSix :
      (fuel : ℕ) (buf : List ℕ) (latest : Option (List F))
      → HasSix latest
      → HasSix (drain_packets fuel buf latest).1
  unfolding drain_packets
  drain_packets-HasSix zero buf latest h = h
  drain_packets-HasSix (suc fuel) buf latest h = elim (Option-cases (next_packet buf)) [
    | inl stuck ↦ rw (drain_packets, stuck) h
    | inr ((p, rest), e) ↦
        rw (drain_packets, e)
          (drain_packets-HasSix fuel rest (note_sample p latest) (note_sample-HasSix p latest h))
  ]

module _ (F : Type 0) ⦃fl : Floats F⦄ where
  take_latest-HasSix : (s : Source) (r : Received (List ℕ)) → HasSix (take_latest {F = F} s r).1
  unfolding take_latest
  take_latest-HasSix s failed = tt
  take_latest-HasSix s (ok buf) = drain_packets-HasSix (length buf) buf none tt

  pub get_torques-HasSix :
      (s : Source) (socket : List Recv) → HasSix (get_torques {F = F} s socket).1
  unfolding get_torques
  get_torques-HasSix s socket =
      if_lem (λ (r : Source × Option (List F)). HasSix r.1) (not (is_connected s)) (s, none)
        (take_latest s (recv_all s.buf socket)) (λ off. tt)
        (λ on. take_latest-HasSix s (recv_all s.buf socket))
