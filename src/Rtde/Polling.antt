-- ===== src/Rtde/Polling.antt =====
-- What `get_torques` returns over the bytes that arrive.
use digital_twin_based_on_un.Common.{
  ℕ, zero, suc, ◌≡◌, refl, sym, ◌∙◌, ap, inl, inr, true, List, [], ◌∷◌, ◌++◌, Option, none, some,
  arith, length, length-append, Option-cases, All,
}
use mathlib.Core.List.{append_assoc, append-nil}
use digital_twin_based_on_un.Common.Floats.{Floats}
use digital_twin_based_on_un.Rtde.{Packet, next_packet, note_sample, drain_packets}
use digital_twin_based_on_un.Rtde.Stream.{
  frames, FitsSize, last_sample, drain_packets-frames, drain_packets-append, length-frames,
  length-drain_packets, drain_packets-fuel,
}
use digital_twin_based_on_un.Rtde.Socket.{
  Recv, chunk, would_block, ok, Source, recv_all, get_torques, is_connected,
}

-- A read returned some bytes: a first one and the others.
abbrev pub Read : Type 0
Read = ℕ × List ℕ

abbrev pub bytes_of : List Read → List ℕ
bytes_of [] = []
bytes_of ((b, bs) ∷ rs) = (b ∷ bs) ++ bytes_of rs

-- The reads that a poll makes, and then nothing more is there.
abbrev pub deliver : List Read → List Recv
deliver [] = would_block ∷ []
deliver ((b, bs) ∷ rs) = chunk (b ∷ bs) ∷ deliver rs

-- The later sample, if there is one.
abbrev pub or_else {ℓ} : {A : Type ℓ} → Option A → Option A → Option A
or_else none earlier = earlier
or_else (some a) earlier = some a

recv_all-deliver :
    (buf : List ℕ) (rs : List Read) → recv_all buf (deliver rs) ≡ ok (buf ++ bytes_of rs)
unfolding recv_all
recv_all-deliver buf [] = rw append-nil
recv_all-deliver buf ((b, bs) ∷ rs) =
    recv_all-deliver (buf ++ (b ∷ bs)) rs ∙ ap ok (append_assoc buf (b ∷ bs) (bytes_of rs))

bytes_of-append : (rs qs : List Read) → bytes_of (rs ++ qs) ≡ bytes_of rs ++ bytes_of qs
bytes_of-append [] qs = refl
bytes_of-append ((b, bs) ∷ rs) qs =
    ap (λ l. (b ∷ bs) ++ l) (bytes_of-append rs qs)
    ∙ sym (append_assoc (b ∷ bs) (bytes_of rs) (bytes_of qs))

pub still_connected :
    (s : Source) (buf : List ℕ)
    → is_connected s ≡ true
    → is_connected (record s { buf = buf }) ≡ true
unfolding is_connected
still_connected s buf h = h

module _ {F : Type 0} ⦃fl : Floats F⦄ where
  pub get_torques-deliver :
      (s : Source) (rs : List Read)
      → is_connected s ≡ true
      → get_torques {F = F} s (deliver rs) ≡ (
          let buf = s.buf ++ bytes_of rs in
          let (rest, latest) = drain_packets {F = F} (length buf) buf none in
          (record s { buf = rest }, latest))
  unfolding get_torques
  get_torques-deliver s rs h = rw (h, recv_all-deliver s.buf rs)

  -- When the buffer and the bytes that arrive, in any reads, are whole packets and an incomplete
  -- rest, a connected source returns the sample of the last data packet, or none if there was
  -- none, and keeps the rest.
  pub get_torques-frames :
      (s : Source) (rs : List Read) (ps : List Packet) (rest : List ℕ)
      → is_connected s ≡ true
      → s.buf ++ bytes_of rs ≡ frames ps ++ rest
      → All FitsSize ps
      → next_packet rest ≡ none
      → get_torques {F = F} s (deliver rs) ≡ (record s { buf = rest }, last_sample none ps)
  get_torques-frames s rs ps rest h e fits stuck =
      get_torques-deliver s rs h
      ∙ rw e (
          rw (
            drain_packets-frames {F = F} (length (frames ps ++ rest)) ps rest none fits stuck
              (omega (arith, length-frames ps, length-append (frames ps) rest))))

  or_else_assoc : (a b c : Option (List F)) → or_else (or_else a b) c ≡ or_else a (or_else b c)
  or_else_assoc none b c = refl
  or_else_assoc (some x) b c = refl

  note_sample-or_else :
      (p : Packet) (latest : Option (List F))
      → note_sample p latest ≡ or_else (note_sample p none) latest
  unfolding note_sample
  note_sample-or_else p latest = ground arith

  -- What was sampled before stays unless the bytes hold a sample of their own.
  drain_packets-latest :
      (fuel : ℕ) (buf : List ℕ) (latest : Option (List F))
      → drain_packets fuel buf latest
        ≡ (let (rest, l) = drain_packets fuel buf none in (rest, or_else l latest))
  unfolding drain_packets
  drain_packets-latest zero buf latest = refl
  drain_packets-latest (suc fuel) buf latest = elim (Option-cases (next_packet buf)) [
    | inl stuck ↦ rw (drain_packets, stuck)
    | inr ((p, rest), e) ↦
        let l0 = (drain_packets {F = F} fuel rest none).1 in
        rw (drain_packets, e)
          (ground (
            arith,
            drain_packets-latest fuel rest (note_sample p latest),
            drain_packets-latest fuel rest (note_sample p none),
            note_sample-or_else p latest,
            or_else_assoc l0 (note_sample p none) latest,
          ))
  ]

  drain_packets-split :
      (buf more : List ℕ)
      → drain_packets {F = F} (length (buf ++ more)) (buf ++ more) none ≡ (
          let (rest, l) = drain_packets {F = F} (length buf) buf none in
          let (rest', l') = drain_packets {F = F} (length (rest ++ more)) (rest ++ more) none in
          (rest', or_else l' l))
  drain_packets-split buf more =
      let (rest, l) = drain_packets {F = F} (length buf) buf none in
      let shorter = length-drain_packets {F = F} (length buf) buf none in
      drain_packets-append (length (buf ++ more)) (length buf) (length (buf ++ more)) buf more none
        (omega arith) (omega arith) (omega arith)
      ∙ drain_packets-fuel (length (buf ++ more)) (length (rest ++ more)) (rest ++ more) l
          (omega (arith, length-append rest more, length-append buf more)) (omega arith)
      ∙ drain_packets-latest (length (rest ++ more)) (rest ++ more) l

  -- Two polls of a connected source leave the same state as one poll of all the bytes, wherever
  -- they are cut, and the sample of the one poll is that of the later of the two which has a
  -- sample.
  pub get_torques-append :
      (s : Source) (rs qs : List Read)
      → is_connected s ≡ true
      → let (s1, t1) = get_torques {F = F} s (deliver rs) in
        let (s2, t2) = get_torques {F = F} s1 (deliver qs) in
        get_torques {F = F} s (deliver (rs ++ qs)) ≡ (s2, or_else t2 t1)
  get_torques-append s rs qs h =
      let buf = s.buf ++ bytes_of rs in
      let more = bytes_of qs in
      let (rest, latest) = drain_packets {F = F} (length buf) buf none in
      let cut : s.buf ++ bytes_of (rs ++ qs) ≡ buf ++ more =
        ap (λ l. s.buf ++ l) (bytes_of-append rs qs)
        ∙ sym (append_assoc s.buf (bytes_of rs) more) in
      let first = get_torques-deliver s rs h in
      let second = get_torques-deliver (record s { buf = rest }) qs (still_connected s rest h) in
      rw (get_torques-deliver s (rs ++ qs) h, cut, first, second)
        (let result : List ℕ × Option (List F) → Source × Option (List F) =
            λ q. (record s { buf = q.0 }, q.1) in
          ap result (drain_packets-split buf more))
