-- ===== src/Rtde/Stream.antt =====
-- The packet loop of `get_torques` over the byte stream: its fuel, whole packets, and how the stream
-- is cut into reads.
use digital_twin_based_on_un.Common.{
  ℕ, zero, suc, ◌+◌, ◌≤◌, ◌<◌, ◌≡◌, refl, sym, ◌∙◌, inl, inr, List, [], ◌∷◌, ◌++◌, Option, none,
  some, arith, length, length-append, Option-cases, All,
}
use mathlib.Core.List.{append_assoc}
use digital_twin_based_on_un.Common.Floats.{Floats}
use digital_twin_based_on_un.Rtde.{Packet, frame, next_packet, note_sample, drain_packets}
use digital_twin_based_on_un.Rtde.Frames.{next_packet-frame, next_packet-append, length-next_packet}

-- The bytes of a sequence of packets.
abbrev pub frames : List Packet → List ℕ
frames [] = []
frames ((ptype, payload) ∷ ps) = frame ptype payload ++ frames ps

-- The size of the packet fits its two bytes.
abbrev pub FitsSize : Packet → Type 0
FitsSize (ptype, payload) = 3 + length payload < 65536

-- A sequence of packets has at least as many bytes as packets.
pub length-frames : (ps : List Packet) → length ps ≤ length (frames ps)
unfolding frame
length-frames [] = omega arith
length-frames ((t, payload) ∷ ps) =
    omega (arith, length-frames ps, length-append payload (frames ps))

module _ {F : Type 0} ⦃fl : Floats F⦄ where
  -- The sample that the last data packet leaves.
  abbrev pub last_sample : Option (List F) → List Packet → Option (List F)
  last_sample latest [] = latest
  last_sample latest (p ∷ ps) = last_sample (note_sample p latest) ps

  pub drain_packets-stuck :
      (fuel : ℕ) (buf : List ℕ) (latest : Option (List F))
      → next_packet buf ≡ none
      → drain_packets fuel buf latest ≡ (buf, latest)
  unfolding drain_packets
  drain_packets-stuck zero buf latest h = refl
  drain_packets-stuck (suc fuel) buf latest h = rw (drain_packets, h)

  drain_packets-next :
      (fuel : ℕ) (buf rest : List ℕ) (p : Packet) (latest : Option (List F))
      → next_packet buf ≡ some (p, rest)
      → drain_packets (suc fuel) buf latest ≡ drain_packets fuel rest (note_sample p latest)
  unfolding drain_packets
  drain_packets-next fuel buf rest p latest h = rw (drain_packets, h)

  -- With fuel as long as the buffer the packet loop ends by its own test: no complete packet is
  -- left at the head of the buffer.
  drain_packets_complete :
      (fuel : ℕ) (buf : List ℕ) (latest : Option (List F))
      → length buf ≤ fuel
      → next_packet (drain_packets fuel buf latest).0 ≡ none
  drain_packets_complete zero [] latest h = unfold drain_packets next_packet in refl
  drain_packets_complete zero (b ∷ bs) latest h = absurd (omega arith)
  drain_packets_complete (suc fuel) buf latest h = elim (Option-cases (next_packet buf)) [
    | inl stuck ↦ rw (drain_packets-stuck (suc fuel) buf latest stuck) stuck
    | inr ((p, rest), e) ↦ rw (drain_packets-next fuel buf rest p latest e) (
        drain_packets_complete fuel rest (note_sample p latest)
          (omega (arith, length-next_packet buf e)))
  ]

  pub length-drain_packets :
      (fuel : ℕ) (buf : List ℕ) (latest : Option (List F))
      → length (drain_packets fuel buf latest).0 ≤ length buf
  length-drain_packets zero buf latest = unfold drain_packets in omega arith
  length-drain_packets (suc fuel) buf latest = elim (Option-cases (next_packet buf)) [
    | inl stuck ↦ rw (drain_packets-stuck (suc fuel) buf latest stuck) (omega arith)
    | inr ((p, rest), e) ↦ rw (drain_packets-next fuel buf rest p latest e) (
        omega
          (arith, length-next_packet buf e, length-drain_packets fuel rest (note_sample p latest)))
  ]

  -- More fuel than the buffer is long changes nothing.
  pub drain_packets-fuel :
      (f g : ℕ) (buf : List ℕ) (latest : Option (List F))
      → length buf ≤ f
      → length buf ≤ g
      → drain_packets f buf latest ≡ drain_packets g buf latest
  drain_packets-fuel zero g [] latest hf hg =
      unfold drain_packets next_packet in sym (drain_packets-stuck g [] latest refl)
  drain_packets-fuel zero g (b ∷ bs) latest hf hg = absurd (omega arith)
  drain_packets-fuel (suc f) zero [] latest hf hg =
      unfold drain_packets next_packet in drain_packets-stuck (suc f) [] latest refl
  drain_packets-fuel (suc f) zero (b ∷ bs) latest hf hg = absurd (omega arith)
  drain_packets-fuel (suc f) (suc g) buf latest hf hg = elim (Option-cases (next_packet buf)) [
    | inl stuck ↦
        drain_packets-stuck (suc f) buf latest stuck
        ∙ sym (drain_packets-stuck (suc g) buf latest stuck)
    | inr ((p, rest), e) ↦
        let shorter = length-next_packet buf e in
        drain_packets-next f buf rest p latest e
        ∙ drain_packets-fuel f g rest (note_sample p latest) (omega arith) (omega arith)
        ∙ sym (drain_packets-next g buf rest p latest e)
  ]

  -- Reading the first part of the stream, and then the rest behind what was left of it, is
  -- reading the whole: a packet may be cut anywhere between two reads.
  pub drain_packets-append :
      (f g h : ℕ) (buf more : List ℕ) (latest : Option (List F))
      → length (buf ++ more) ≤ f
      → length buf ≤ g
      → length (buf ++ more) ≤ h
      → let (rest, l) = drain_packets g buf latest in
        drain_packets f (buf ++ more) latest ≡ drain_packets h (rest ++ more) l
  drain_packets-append f g h [] more latest hf hg hh =
      rw (drain_packets-stuck g [] latest (unfold next_packet in refl))
        (drain_packets-fuel f h more latest hf hh)
  drain_packets-append zero g h (b ∷ bs) more latest hf hg hh = absurd (omega arith)
  drain_packets-append (suc f) zero h (b ∷ bs) more latest hf hg hh = absurd (omega arith)
  drain_packets-append (suc f) (suc g) h (b ∷ bs) more latest hf hg hh =
      let buf : List ℕ = b ∷ bs in
      elim (Option-cases (next_packet buf)) [
        | inl stuck ↦
            rw (drain_packets-stuck (suc g) buf latest stuck)
              (drain_packets-fuel (suc f) h (buf ++ more) latest hf hh)
        | inr ((p, rest), e) ↦
            let shorter = length-next_packet buf e in
            rw
              (
                drain_packets-next g buf rest p latest e,
                drain_packets-next f (buf ++ more) (rest ++ more) p latest
                    (next_packet-append buf more e),
              )
              (drain_packets-append f g h rest more (note_sample p latest)
                (omega (arith, length-append bs more, length-append rest more)) (omega arith)
                (omega (arith, length-append bs more, length-append rest more)))
      ]

  -- Whole packets are all read, each once and in order, and the incomplete rest stays: the sample
  -- is that of the last data packet.
  pub drain_packets-frames :
      (fuel : ℕ) (ps : List Packet) (rest : List ℕ) (latest : Option (List F))
      → All FitsSize ps
      → next_packet rest ≡ none
      → length ps ≤ fuel
      → drain_packets fuel (frames ps ++ rest) latest ≡ (rest, last_sample latest ps)
  drain_packets-frames fuel [] rest latest fits stuck enough =
      drain_packets-stuck fuel rest latest stuck
  drain_packets-frames zero (p ∷ ps) rest latest fits stuck enough = absurd (omega arith)
  drain_packets-frames (suc fuel) ((t, payload) ∷ ps) rest latest fits stuck enough =
      rw (append_assoc (frame t payload) (frames ps) rest) (
        drain_packets-next fuel (frame t payload ++ (frames ps ++ rest)) (frames ps ++ rest)
          (t, payload) latest (next_packet-frame t payload (frames ps ++ rest) fits.0)
        ∙ drain_packets-frames fuel ps rest (note_sample (t, payload) latest) fits.1 stuck
            (omega arith))
