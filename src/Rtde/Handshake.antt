-- ===== src/Rtde/Handshake.antt =====
-- The handshake of `connect`, over a blocking socket.
use digital_twin_based_on_un.Common.{
  ℕ, zero, suc, ◌+◌, ◌-◌, ◌*◌, Bool, true, false, not, ◌&&◌, ◌||◌, ◌==◌, List, [], ◌∷◌, ◌++◌,
  if◌then◌else◌, ltb, length, drop,
}
use digital_twin_based_on_un.Rtde.{
  request_protocol_version, setup_outputs_type, start_type, protocol_version, frame,
}
use digital_twin_based_on_un.Common.Floats.{Floats}
use digital_twin_based_on_un.Jog.{codes}
use digital_twin_based_on_un.Rtde.Socket.{
  Recv, Received, ok, failed, Source, disconnect, recv_exact,
}

abbrev pub header_size : List ℕ → ℕ
header_size (b0 ∷ b1 ∷ rest) = b0 * 256 + b1
header_size (b0 ∷ []) = b0
header_size [] = 0

abbrev pub header_type : List ℕ → ℕ
header_type (b0 ∷ b1 ∷ t ∷ rest) = t
header_type (b0 ∷ b1 ∷ []) = 0
header_type (b0 ∷ []) = 0
header_type [] = 0

-- The payload behind a header: nothing is read when the size is three or less.
unfoldable pub recv_payload : ℕ → List Recv → Received (List ℕ × List Recv)
recv_payload size socket = if ltb 3 size then recv_exact (size - 3) [] socket else ok ([], socket)

-- `_recv_packet`: the payload of the first packet of the type wanted, and the socket behind it.
-- Fuel above the number of reads is enough, since every header takes at least one.
unfoldable pub recv_packet : ℕ → ℕ → List Recv → Received (List ℕ × List Recv)
recv_packet zero expected socket = failed
recv_packet (suc fuel) expected socket = elim (recv_exact 3 [] socket) [
  | failed ↦ failed
  | ok (header, s1) ↦ elim (recv_payload (header_size header) s1) [
    | failed ↦ failed
    | ok (payload, s2) ↦
        let next = recv_packet fuel expected s2 in
        if header_type header == expected then ok (payload, s2) else next
  ]
]

-- What a step of the handshake comes to, and the packets that it sent.
abbrev pub Exchange : Type 0 → Type 0
Exchange A = Received A × List (List ℕ)

infixl 5 ◌>>=◌ ◌>>◌
abbrev pub ◌>>=◌ : {A B : Type 0} → Exchange A → (A → Exchange B) → Exchange B
◌>>=◌ m f =
    let (r, sent) = m in
    elim r [ failed ↦ (failed, sent) | ok a ↦ let (r', more) = f a in (r', sent ++ more) ]

abbrev pub ◌>>◌ : {B : Type 0} → Exchange (Unit {0}) → Exchange B → Exchange B
m >> k = m >>= λ _. k

-- `_send`; `works` is whether `sendall` goes through.
abbrev pub send : Bool → ℕ → List ℕ → Exchange (Unit {0})
send works ptype payload = if works then (ok tt, frame ptype payload ∷ []) else (failed, [])

-- `_recv_packet` with fuel for the whole socket.
abbrev pub receive : ℕ → List Recv → Exchange (List ℕ × List Recv)
receive expected socket = (recv_packet (suc (length socket)) expected socket, [])

-- `needle in text`
abbrev pub starts_with : List ℕ → List ℕ → Bool
starts_with [] text = true
starts_with (c ∷ cs) [] = false
starts_with (c ∷ cs) (t ∷ ts) = c == t && starts_with cs ts

abbrev pub contains : List ℕ → List ℕ → Bool
contains needle [] = starts_with needle []
contains needle (t ∷ ts) = starts_with needle (t ∷ ts) || contains needle ts

-- What the network lets the client do, and what it sends back.
pub record Net : Type 0 where
  pub reachable : Bool
  pub accepts : Bool
  pub sends_version : Bool
  pub sends_setup : Bool
  pub sends_start : Bool
  pub socket : List Recv

-- `_negotiate_version`
unfoldable pub negotiate_version : Net → Exchange (List Recv)
negotiate_version net = do
  send net.sends_version request_protocol_version (0 ∷ protocol_version ∷ [])
  (resp, socket) ← receive request_protocol_version net.socket
  (ok socket, [])

-- `bool(resp[0]) if resp else False`
abbrev pub accepted : List ℕ → Bool
accepted [] = false
accepted (b ∷ bs) = not (b == 0)

-- `_start`: whether the controller accepted.
unfoldable pub start : Net → List Recv → Exchange Bool
start net socket = do
  send net.sends_start start_type []
  (resp, socket') ← receive start_type socket
  (ok (accepted resp), [])

-- The source after the handshake, and what `connect` returns; the handler of OSError is `failed`.
unfoldable pub finish_connect : Source → Received Bool → Source × Bool
finish_connect s failed = (disconnect s, false)
finish_connect s (ok started) =
    if started
    then (record { sock = true; buf = []; connected = true }, true)
    else (disconnect s, false)

module _ {F : Type 0} ⦃fl : Floats F⦄ (frequency : F) (rtde_field : List ℕ) where
  -- `_setup_outputs`: whether the firmware knows the field, and the socket.
  unfoldable pub setup_outputs : Net → List Recv → Exchange (Bool × List Recv)
  setup_outputs net socket = do
    send net.sends_setup setup_outputs_type (fl.pack_double frequency ++ rtde_field)
    (resp, socket') ← receive setup_outputs_type socket
    (ok (not (contains (codes "NOT_FOUND") (drop 1 resp)), socket'), [])

  -- The `try` block of `connect` up to the start: false where it returns early.
  unfoldable pub handshake : Net → Exchange Bool
  handshake net = do
    socket ← negotiate_version net
    (known, socket') ← setup_outputs net socket
    if known then start net socket' else (ok false, [])

  -- The source after the call, what it returns, and the packets that were sent.
  unfoldable pub connect : Source → Net → Source × Bool × List (List ℕ)
  connect s net =
      if not net.reachable
      then (s, false, [])
      else if not net.accepts
      then (disconnect s, false, [])
      else let (r, sent) = handshake net in
        let (s', answer) = finish_connect s r in (s', answer, sent)
