-- ===== src/Rtde/Contract.antt =====
-- The interface that the publisher node uses, the class TorqueSource of
-- ur_rtde_torque_bridge/ur_rtde_torque_bridge/torque_source.py under the repository's src/, with
-- what its docstrings promise.
use digital_twin_based_on_un.Common.{ℕ, ◌≡◌, Bool, false, List, Option, none}
use digital_twin_based_on_un.Common.Floats.{Floats}
use digital_twin_based_on_un.Rtde.Socket.{Recv, Source, disconnect, is_connected, get_torques}
use digital_twin_based_on_un.Rtde.Handshake.{Net, connect}
use digital_twin_based_on_un.Rtde.Sessions.{HasSix}

-- A source with the state S: `Up` is what the upstream does during a call of `connect`, and `In`
-- what it has for a call of `get_torques`. The joint names are always `ur7e_joint_order`.
pub record TorqueSource (F S Up In : Type 0) : Type 0 where
  pub connect_source : S → Up → S × Bool
  pub disconnect_source : S → S
  pub has_connection : S → Bool
  pub torques_of : S → In → S × Option (List F)

-- The promises.
pub record IsTorqueSource {F S Up In : Type 0} (t : TorqueSource F S Up In) : Type 0 where
  -- `connect` returns whether it established the connection.
  pub connects :
      (s : S) (up : Up)
      → t.has_connection s ≡ false
      → t.has_connection (t.connect_source s up).0 ≡ (t.connect_source s up).1
  -- `disconnect` releases the connection, and a second call changes nothing.
  pub releases : (s : S) → t.has_connection (t.disconnect_source s) ≡ false
  pub again : (s : S) → t.disconnect_source (t.disconnect_source s) ≡ t.disconnect_source s
  -- Six torques, or none, and none without a connection.
  pub six : (s : S) (i : In) → HasSix (t.torques_of s i).1
  pub silent : (s : S) (i : In) → t.has_connection s ≡ false → t.torques_of s i ≡ (s, none)

module _ {F : Type 0} ⦃fl : Floats F⦄ where
  -- RtdeTorqueSource as a TorqueSource.
  abbrev pub rtde_source : F → List ℕ → TorqueSource F Source Net (List Recv)
  rtde_source frequency rtde_field = record {
    connect_source =
        λ s net. let (s', answer, sent) = connect frequency rtde_field s net in (s', answer);
    disconnect_source = disconnect;
    has_connection = is_connected;
    torques_of = get_torques;
  }
