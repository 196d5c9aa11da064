-- ===== src/Rtde/Socket.antt =====
-- The state of the torque source and its methods. Each call of `recv` takes the next entry of the
-- socket's list; when the list is at its end, a blocking call times out and another would block.
use digital_twin_based_on_un.Common.{
  ℕ, Bool, false, not, ◌&&◌, List, [], ◌∷◌, ◌++◌, Option, none, if◌then◌else◌, ltb, length,
}
use digital_twin_based_on_un.Common.Floats.{Floats, fl_zero}
use digital_twin_based_on_un.Rtde.{drain_packets}

-- What one call of `recv` returns: bytes (none when the peer has closed), BlockingIOError, or
-- another OSError.
pub data Recv : Type 0 where
  chunk : List ℕ → Recv
  would_block os_error : Recv

pub data Received (A : Type 0) : Type 0 where
  ok : A → Received A
  -- an OSError
  failed : Received A

-- The parts of the object that its methods change: whether `_sock` is set, `_buf`, `_connected`.
pub record Source : Type 0 where
  pub sock : Bool
  pub buf : List ℕ
  pub connected : Bool

unfoldable pub new : Source
new = record { sock = false; buf = []; connected = false }

unfoldable pub disconnect : Source → Source
disconnect s = record { sock = false; buf = []; connected = false }

unfoldable pub is_connected : Source → Bool
is_connected s = s.connected && s.sock

-- The `recv` loop of `get_torques`: the buffer with all that is there.
unfoldable pub recv_all : List ℕ → List Recv → Received (List ℕ)
recv_all buf [] = ok buf
recv_all buf (would_block ∷ rs) = ok buf
recv_all buf (os_error ∷ rs) = failed
recv_all buf (chunk [] ∷ rs) = failed
recv_all buf (chunk (b ∷ bs) ∷ rs) = recv_all (buf ++ (b ∷ bs)) rs

module _ {F : Type 0} ⦃fl : Floats F⦄ where
  -- `_frequency` as `__init__` sets it; 125 Hz is the default.
  unfoldable pub frequency_of : F → F → F
  frequency_of default frequency = if fl.lt fl_zero frequency then frequency else default

  -- The end of `get_torques`: the packets of the buffer. Fuel as long as the buffer is enough.
  unfoldable pub take_latest : Source → Received (List ℕ) → Source × Option (List F)
  unfolding disconnect
  take_latest s failed = (disconnect s, none)
  take_latest s (ok buf) =
      let (rest, latest) = drain_packets (length buf) buf none in (record s { buf = rest }, latest)

  -- The torques; the joint names beside them are always `ur7e_joint_order`.
  unfoldable pub get_torques : Source → List Recv → Source × Option (List F)
  unfolding take_latest is_connected
  get_torques s socket =
      if not (is_connected s) then (s, none) else take_latest s (recv_all s.buf socket)

-- `_recv_exact`: `data` is what has come so far.
unfoldable pub recv_exact : ℕ → List ℕ → List Recv → Received (List ℕ × List Recv)
recv_exact n data' [] = if ltb (length data') n then failed else ok (data', [])
recv_exact n data' (r ∷ rs) =
    if ltb (length data') n
    then elim r [
      | would_block ↦ failed
      | os_error ↦ failed
      | chunk bs ↦ elim bs [ [] ↦ failed | b ∷ bs' ↦ recv_exact n (data' ++ (b ∷ bs')) rs ]
    ]
    else ok (data', r ∷ rs)
