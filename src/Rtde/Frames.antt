-- ===== src/Rtde/Frames.antt =====
-- Framing: `next_packet` on what `frame` writes.
use digital_twin_based_on_un.Common.{
  ℕ, zero, suc, ◌+◌, ◌-◌, ◌*◌, ◌/◌, ◌%◌, ◌≤◌, ◌<◌, ◌≡◌, refl, ap, ◌∙◌, List, [], ◌∷◌, ◌++◌, some,
  arith, length, take, drop, length-append, length-drop, take-length-append, drop-length-append,
}
use digital_twin_based_on_un.Rtde.{Packet, frame, next_packet}

take_exact {ℓ} : {A : Type ℓ} (n : ℕ) (xs ys : List A) → n ≡ length xs → take n (xs ++ ys) ≡ xs
take_exact n xs ys e = ap (λ k. take k (xs ++ ys)) e ∙ take-length-append xs ys

drop_exact {ℓ} : {A : Type ℓ} (n : ℕ) (xs ys : List A) → n ≡ length xs → drop n (xs ++ ys) ≡ ys
drop_exact n xs ys e = ap (λ k. drop k (xs ++ ys)) e ∙ drop-length-append xs ys

-- The first packet of a buffer that begins with a frame is the one that was sent.
pub next_packet-frame :
    (ptype : ℕ) (payload rest : List ℕ)
    → 3 + length payload < 65536
    → next_packet (frame ptype payload ++ rest) ≡ some ((ptype, payload), rest)
unfolding next_packet frame
next_packet-frame ptype payload rest h =
    let size = 3 + length payload in
    let e : size / 256 * 256 + size % 256 ≡ size = omega arith in
    rw e (
      ground (
        arith,
        length-append payload rest,
        take_exact (size - 3) payload rest (omega arith),
        drop_exact (size - 3) payload rest (omega arith),
      ))

take-append_le {ℓ} :
    {A : Type ℓ} (n : ℕ) (xs ys : List A) → n ≤ length xs → take n (xs ++ ys) ≡ take n xs
take-append_le zero xs ys h = refl
take-append_le (suc n) [] ys h = absurd (omega arith)
take-append_le (suc n) (x ∷ xs) ys h = ap (λ l. x ∷ l) (take-append_le n xs ys (omega arith))

drop-append_le {ℓ} :
    {A : Type ℓ} (n : ℕ) (xs ys : List A) → n ≤ length xs → drop n (xs ++ ys) ≡ drop n xs ++ ys
drop-append_le zero xs ys h = refl
drop-append_le (suc n) [] ys h = absurd (omega arith)
drop-append_le (suc n) (x ∷ xs) ys h = drop-append_le n xs ys (omega arith)

-- A complete packet is not changed by bytes that arrive behind it.
pub next_packet-append :
    (buf more : List ℕ) {p : Packet} {rest : List ℕ}
    → next_packet buf ≡ some (p, rest)
    → next_packet (buf ++ more) ≡ some (p, rest ++ more)
unfolding next_packet
next_packet-append [] more h = cc
next_packet-append (b0 ∷ []) more h = cc
next_packet-append (b0 ∷ b1 ∷ []) more h = cc
next_packet-append (b0 ∷ b1 ∷ t ∷ body) more h =
    let size = b0 * 256 + b1 in
    ground (
      arith,
      length-append body more,
      take-append_le (size - 3) body more,
      drop-append_le (size - 3) body more,
    )

-- A packet takes at least three bytes off the buffer.
pub length-next_packet :
    (buf : List ℕ) {p : Packet} {rest : List ℕ}
    → next_packet buf ≡ some (p, rest)
    → 3 + length rest ≤ length buf
unfolding next_packet
length-next_packet [] h = cc
length-next_packet (b0 ∷ []) h = cc
length-next_packet (b0 ∷ b1 ∷ []) h = cc
length-next_packet (b0 ∷ b1 ∷ t ∷ body) {rest} h =
    ground (arith, length-drop (b0 * 256 + b1 - 3) body)
