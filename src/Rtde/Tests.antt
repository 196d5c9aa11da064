-- ===== src/Rtde/Tests.antt =====
-- The torque source over concrete bytes, and an instance of each theorem. A sample here is one
-- data packet: a recipe id and six numbers of eight bytes each.
use digital_twin_based_on_un.Common.{
  ℕ, ◌≡◌, refl, true, List, [], ◌∷◌, ◌++◌, none, some, arith, All,
}
use digital_twin_based_on_un.Common.Int.{ℤ, pos}
use digital_twin_based_on_un.Common.Samples.{whole_floats}
use digital_twin_based_on_un.Jog.{codes}
use digital_twin_based_on_un.Rtde.{
  Packet, frame, next_packet, drain_packets, note_sample, data_package,
}
use digital_twin_based_on_un.Rtde.Stream.{frames, last_sample}
use digital_twin_based_on_un.Rtde.Socket.{Source, new, is_connected, get_torques, recv_exact}
use digital_twin_based_on_un.Rtde.Polling.{
  Read, deliver, or_else, get_torques-frames, get_torques-append,
}
use digital_twin_based_on_un.Rtde.Stalls.{all_bytes, poll_all, poll_all-IsMalformed}
use digital_twin_based_on_un.Rtde.Handshake.{
  Net, recv_packet, recv_payload, connect, handshake, negotiate_version, setup_outputs, start,
  finish_connect,
}
use digital_twin_based_on_un.Rtde.Packets.{deliver_packets}
use digital_twin_based_on_un.Rtde.Recovery.{Replies}
use digital_twin_based_on_un.Rtde.Connect.{Outcome, connect_lem}

abbrev number : ℕ → List ℕ
number n = 0 ∷ 0 ∷ 0 ∷ 0 ∷ 0 ∷ 0 ∷ 0 ∷ n ∷ []

-- The payload with the torques n, 2, 3, 4, 5, 6.
abbrev payload : ℕ → List ℕ
payload n = 1 ∷ (number n ++ (number 2 ++ (number 3 ++ (number 4 ++ (number 5 ++ number 6)))))

abbrev torques : ℕ → List ℤ
torques n = pos n ∷ pos 2 ∷ pos 3 ∷ pos 4 ∷ pos 5 ∷ pos 6 ∷ []

abbrev live : Source
live = record { sock = true; buf = []; connected = true }

-- Two data packets around one of another type, and the head of a fourth.
abbrev packets : List Packet
packets = (data_package, payload 7) ∷ (77, 1 ∷ []) ∷ (data_package, payload 9) ∷ []

abbrev head : List ℕ
head = 0 ∷ 5 ∷ 85 ∷ 1 ∷ []

-- The reads, which cut the packets anywhere.
abbrev reads : List Read
unfolding frame
reads = (0, 52 ∷ 85 ∷ payload 7 ++ (0 ∷ 4 ∷ [])) ∷ (77, 1 ∷ 0 ∷ 52 ∷ 85 ∷ payload 9 ++ head) ∷ []

drain-packets : drain_packets {F = ℤ} 200 (frames packets ++ head) none ≡ (head, some (torques 9))
unfolding drain_packets next_packet frame note_sample
drain-packets = refl

get_torques-frames_example :
    get_torques {F = ℤ} live (deliver reads)
    ≡ (record live { buf = head }, last_sample none packets)
unfolding next_packet frame is_connected
get_torques-frames_example = get_torques-frames live reads packets head refl refl (omega arith) refl

get_torques-append_example :
    let (s1, t1) = get_torques {F = ℤ} live (deliver ((0, 5 ∷ []) ∷ [])) in
    let (s2, t2) = get_torques {F = ℤ} s1 (deliver ((85, 1 ∷ []) ∷ [])) in
    get_torques {F = ℤ} live (deliver ((0, 5 ∷ []) ∷ (85, 1 ∷ []) ∷ [])) ≡ (s2, or_else t2 t1)
unfolding is_connected
get_torques-append_example = get_torques-append live ((0, 5 ∷ []) ∷ []) ((85, 1 ∷ []) ∷ []) refl

-- A header of size 2, and a good sample behind it that is never read.
abbrev jammed : Source
jammed = record { sock = true; buf = 0 ∷ 2 ∷ 85 ∷ []; connected = true }

poll_all-IsMalformed_example :
    let (s', ts) = poll_all ℤ jammed (reads ∷ []) in
    All (λ t. t ≡ none) ts
    × (s' ≡ record jammed { buf = jammed.buf ++ all_bytes (reads ∷ []) })
    × (is_connected s' ≡ true)
unfolding is_connected
poll_all-IsMalformed_example = poll_all-IsMalformed ℤ jammed (reads ∷ []) refl (omega arith)

-- A robot that answers the three requests.
abbrev robot : Net
robot = record {
  reachable = true;
  accepts = true;
  sends_version = true;
  sends_setup = true;
  sends_start = true;
  socket = deliver_packets ((86, 1 ∷ []) ∷ (79, 1 ∷ codes "VECTOR6D") ∷ (83, 1 ∷ []) ∷ []);
}

connect-robot : (connect (pos 20) (codes "target_moment") new robot).0 ≡ live
unfolding connect handshake negotiate_version setup_outputs start finish_connect recv_packet
    recv_payload recv_exact
connect-robot = refl

connect_lem_example :
    Outcome (pos 20) (codes "target_moment") (connect (pos 20) (codes "target_moment") new robot)
unfolding new is_connected
connect_lem_example = connect_lem (pos 20) (codes "target_moment") new robot refl

abbrev replies : Replies
replies = record {
  before_version = (77, 5 ∷ []) ∷ [];
  version = 1 ∷ [];
  before_setup = [];
  setup = 1 ∷ codes "VECTOR6D";
  before_start = [];
  started = 1 ∷ [];
}
