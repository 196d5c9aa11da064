-- ===== src/Rtde/Packets.antt =====
-- `_recv_packet`: its fuel, and packets of other types.
use digital_twin_based_on_un.Common.{
  ℕ, zero, suc, ◌+◌, ◌-◌, ◌*◌, ◌/◌, ◌%◌, ◌≤◌, ◌<◌, ◌≡◌, ◌≢◌, ◌⊎◌, refl, ◌∙◌, inl, inr, List, [],
  ◌∷◌, ◌++◌, arith, if◌then◌else◌, ◌==◌, length, All,
}
use digital_twin_based_on_un.Rtde.{Packet}
use digital_twin_based_on_un.Rtde.Stream.{FitsSize}
use digital_twin_based_on_un.Rtde.Socket.{
  Recv, chunk, would_block, os_error, Received, ok, failed, recv_exact,
}
use digital_twin_based_on_un.Rtde.Handshake.{recv_payload, recv_packet, header_size}

length-recv_exact :
    (n : ℕ) (got : List ℕ) (socket : List Recv) {bytes : List ℕ} {rest : List Recv}
    → recv_exact n got socket ≡ ok (bytes, rest)
    → length rest ≤ length socket
unfolding recv_exact
length-recv_exact n got [] h = ground arith
length-recv_exact n got (chunk [] ∷ rs) h = ground arith
length-recv_exact n got (chunk (b ∷ bs) ∷ rs) {bytes} {rest} h =
    ground (arith, length-recv_exact n (got ++ (b ∷ bs)) rs {bytes = bytes} {rest = rest})
length-recv_exact n got (would_block ∷ rs) h = ground arith
length-recv_exact n got (os_error ∷ rs) h = ground arith

-- A header takes at least one read.
length-recv_header :
    (socket : List Recv) {bytes : List ℕ} {rest : List Recv}
    → recv_exact 3 [] socket ≡ ok (bytes, rest)
    → length rest < length socket
unfolding recv_exact
length-recv_header [] h = cc
length-recv_header (chunk [] ∷ rs) h = cc
length-recv_header (chunk (b ∷ bs) ∷ rs) h = omega (arith, length-recv_exact 3 (b ∷ bs) rs h)
length-recv_header (would_block ∷ rs) h = cc
length-recv_header (os_error ∷ rs) h = cc

length-recv_payload :
    (size : ℕ) (socket : List Recv) {bytes : List ℕ} {rest : List Recv}
    → recv_payload size socket ≡ ok (bytes, rest)
    → length rest ≤ length socket
unfolding recv_payload
length-recv_payload size socket {bytes} {rest} h =
    ground (arith, length-recv_exact (size - 3) [] socket {bytes = bytes} {rest = rest})

Received-cases : {A : Type 0} (r : Received A) → (r ≡ failed) ⊎ ((a : A) × (r ≡ ok a))
Received-cases (ok a) = inr (a, refl)
Received-cases failed = inl refl

-- Any fuel above the number of reads gives the same result, so the loop of `_recv_packet` ends.
recv_packet-fuel :
    (f g expected : ℕ) (socket : List Recv)
    → length socket < f
    → length socket < g
    → recv_packet f expected socket ≡ recv_packet g expected socket
unfolding recv_packet
recv_packet-fuel zero g expected socket hf hg = absurd (omega arith)
recv_packet-fuel (suc f) zero expected socket hf hg = absurd (omega arith)
recv_packet-fuel (suc f) (suc g) expected socket hf hg =
    elim (Received-cases (recv_exact 3 [] socket)) [
      | inl e ↦ rw (recv_packet, e)
      | inr ((header, s1), e) ↦ elim (Received-cases (recv_payload (header_size header) s1)) [
        | inl e' ↦ rw (recv_packet, e, e')
        | inr ((payload, s2), e') ↦
            let shorter = length-recv_header socket e in
            let shorter' = length-recv_payload (header_size header) s1 e' in
            rw (recv_packet, e, e', recv_packet-fuel f g expected s2 (omega arith) (omega arith))
      ]
    ]

-- The reads in which a peer delivers packets: a header, and the payload if there is one.
abbrev pub deliver_packets : List Packet → List Recv
deliver_packets [] = []
deliver_packets ((t, []) ∷ ps) = chunk (0 ∷ 3 ∷ t ∷ []) ∷ deliver_packets ps
deliver_packets ((t, b ∷ bs) ∷ ps) =
    let size = 3 + length (b ∷ bs) in
    chunk ((size / 256) ∷ (size % 256) ∷ t ∷ []) ∷ chunk (b ∷ bs) ∷ deliver_packets ps

recv_exact_done :
    (n : ℕ) (got : List ℕ) (socket : List Recv)
    → n ≤ length got
    → recv_exact n got socket ≡ ok (got, socket)
unfolding recv_exact
recv_exact_done n got [] h = ground arith
recv_exact_done n got (r ∷ rs) h = ground arith

-- A read that returns all the bytes asked for is enough.
recv_exact-chunk :
    (n b : ℕ) (bs : List ℕ) (rest : List Recv)
    → n ≡ suc (length bs)
    → recv_exact n [] (chunk (b ∷ bs) ∷ rest) ≡ ok (b ∷ bs, rest)
unfolding recv_exact
recv_exact-chunk n b bs rest h = ground (arith, recv_exact_done n (b ∷ bs) rest)

recv_payload_lem :
    (size b : ℕ) (bs : List ℕ) (rest : List Recv)
    → size ≡ 3 + suc (length bs)
    → recv_payload size (chunk (b ∷ bs) ∷ rest) ≡ ok (b ∷ bs, rest)
unfolding recv_payload
recv_payload_lem size b bs rest h = ground (arith, recv_exact-chunk (size - 3) b bs rest)

recv_packet-head :
    (fuel expected : ℕ) (p : Packet) (rest : List Recv)
    → FitsSize p
    → recv_packet (suc fuel) expected (deliver_packets (p ∷ []) ++ rest)
      ≡ (if p.0 == expected then ok (p.1, rest) else recv_packet fuel expected rest)
unfolding recv_packet recv_payload
recv_packet-head fuel expected (t, []) rest h =
    rw (recv_packet, recv_exact-chunk 3 0 (3 ∷ t ∷ []) rest refl)
recv_packet-head fuel expected (t, b ∷ bs) rest h =
    let size = 3 + length (b ∷ bs) in
    rw (
      recv_packet,
      recv_exact-chunk 3 (size / 256) ((size % 256) ∷ t ∷ []) (chunk (b ∷ bs) ∷ rest) refl,
      recv_payload_lem (size / 256 * 256 + size % 256) b bs rest (omega arith),
    )

deliver_packets-cons :
    (p : Packet) (ps : List Packet) (rest : List Recv)
    → deliver_packets (p ∷ ps) ++ rest ≡ deliver_packets (p ∷ []) ++ (deliver_packets ps ++ rest)
deliver_packets-cons (t, []) ps rest = refl
deliver_packets-cons (t, b ∷ bs) ps rest = refl

-- When a peer delivers packets of other types and then one of the type wanted, `recv_packet`
-- returns the payload of that one and leaves the socket behind it.
pub recv_packet-deliver_packets :
    (fuel expected : ℕ) (others : List Packet) (payload : List ℕ) (rest : List Recv)
    → All FitsSize others
    → All (λ p. p.0 ≢ expected) others
    → FitsSize (expected, payload)
    → length others < fuel
    → recv_packet fuel expected
        (deliver_packets others ++ (deliver_packets ((expected, payload) ∷ []) ++ rest))
      ≡ ok (payload, rest)
recv_packet-deliver_packets zero expected others payload rest fits differ fit enough =
    absurd (omega arith)
recv_packet-deliver_packets (suc fuel) expected [] payload rest fits differ fit enough =
    recv_packet-head fuel expected (expected, payload) rest fit ∙ ground arith
recv_packet-deliver_packets (suc fuel) expected (p ∷ ps) payload rest fits differ fit enough =
    let behind = deliver_packets ((expected, payload) ∷ []) ++ rest in
    rw (deliver_packets-cons p ps behind) (
      recv_packet-head fuel expected p (deliver_packets ps ++ behind) fits.0
      ∙ ground (
        arith,
        recv_packet-deliver_packets fuel expected ps payload rest fits.1 differ.1 fit (omega arith),
      ))
