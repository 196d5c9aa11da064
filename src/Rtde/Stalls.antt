-- ===== src/Rtde/Stalls.antt =====
-- A header whose size is below three, at the head of the buffer.
use digital_twin_based_on_un.Common.{
  ℕ, ◌+◌, ◌*◌, ◌<◌, ◌≡◌, refl, ◌∙◌, true, List, [], ◌∷◌, ◌++◌, Option, none, arith, length, All,
}
use mathlib.Core.List.{append_assoc, append-nil}
use digital_twin_based_on_un.Common.Floats.{Floats}
use digital_twin_based_on_un.Rtde.{next_packet}
use digital_twin_based_on_un.Rtde.Stream.{drain_packets-stuck}
use digital_twin_based_on_un.Rtde.Socket.{Source, get_torques, is_connected}
use digital_twin_based_on_un.Rtde.Polling.{
  Read, bytes_of, deliver, get_torques-deliver, still_connected,
}

-- The buffer begins with a header that gives the packet a size below that of the header.
abbrev pub IsMalformed : List ℕ → Type 0
IsMalformed [] = ⊥
IsMalformed (b0 ∷ []) = ⊥
IsMalformed (b0 ∷ b1 ∷ []) = ⊥
IsMalformed (b0 ∷ b1 ∷ t ∷ body) = b0 * 256 + b1 < 3

next_packet-IsMalformed : (buf : List ℕ) → IsMalformed buf → next_packet buf ≡ none
unfolding next_packet
next_packet-IsMalformed [] h = absurd h
next_packet-IsMalformed (b0 ∷ []) h = absurd h
next_packet-IsMalformed (b0 ∷ b1 ∷ []) h = absurd h
next_packet-IsMalformed (b0 ∷ b1 ∷ t ∷ body) h = ground arith

IsMalformed-append : (buf more : List ℕ) → IsMalformed buf → IsMalformed (buf ++ more)
IsMalformed-append [] more h = absurd h
IsMalformed-append (b0 ∷ []) more h = absurd h
IsMalformed-append (b0 ∷ b1 ∷ []) more h = absurd h
IsMalformed-append (b0 ∷ b1 ∷ t ∷ body) more h = h

-- All the bytes of a series of polls.
abbrev pub all_bytes : List (List Read) → List ℕ
all_bytes [] = []
all_bytes (rs ∷ polls) = bytes_of rs ++ all_bytes polls

module _ (F : Type 0) ⦃fl : Floats F⦄ where
  -- The source after a series of polls, and what each of them returned.
  unfoldable pub poll_all : Source → List (List Read) → Source × List (Option (List F))
  poll_all s [] = (s, [])
  poll_all s (rs ∷ polls) =
      let (s', torques) = get_torques s (deliver rs) in
      let (s'', rest) = poll_all s' polls in (s'', torques ∷ rest)

  get_torques-IsMalformed :
      (s : Source) (rs : List Read)
      → is_connected s ≡ true
      → IsMalformed s.buf
      → get_torques {F = F} s (deliver rs) ≡ (record s { buf = s.buf ++ bytes_of rs }, none)
  get_torques-IsMalformed s rs h m =
      let buf = s.buf ++ bytes_of rs in
      let stuck = next_packet-IsMalformed buf (IsMalformed-append s.buf (bytes_of rs) m) in
      get_torques-deliver s rs h ∙ rw (drain_packets-stuck {F = F} (length buf) buf none stuck)

  -- Once the buffer of a connected source begins with a header of a size below three, no poll
  -- returns a sample, all the bytes pile up in the buffer, and the source stays connected.
  pub poll_all-IsMalformed :
      (s : Source) (polls : List (List Read))
      → is_connected s ≡ true
      → IsMalformed s.buf
      → let (s', torques) = poll_all s polls in
        All (λ t. t ≡ none) torques
        × (s' ≡ record s { buf = s.buf ++ all_bytes polls })
        × (is_connected s' ≡ true)
  unfolding poll_all
  poll_all-IsMalformed s [] h m = (tt, rw append-nil, h)
  poll_all-IsMalformed s (rs ∷ polls) h m =
      let buf = s.buf ++ bytes_of rs in
      let (silent, piled, live) =
        poll_all-IsMalformed (record s { buf = buf }) polls (still_connected s buf h)
          (IsMalformed-append s.buf (bytes_of rs) m) in
      rw (get_torques-IsMalformed s rs h m)
        ((refl, silent), rw (← append_assoc s.buf (bytes_of rs) (all_bytes polls)) piled, live)
