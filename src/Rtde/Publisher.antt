-- ===== src/Rtde/Publisher.antt =====
-- The publisher node: ur_rtde_torque_bridge/ur_rtde_torque_bridge/torque_publisher_node.py under
-- the repository's src/. A timer callback takes what the network holds for it.
use digital_twin_based_on_un.Common.{ℕ, List, [], Option, none, some, if◌then◌else◌}
use digital_twin_based_on_un.Common.Floats.{Floats, fl_zero}
use digital_twin_based_on_un.Msgs.{JointState}
use digital_twin_based_on_un.Rtde.{ur7e_joint_order}
use digital_twin_based_on_un.Rtde.Socket.{Recv, Source, is_connected, disconnect, get_torques}
use digital_twin_based_on_un.Rtde.Handshake.{Net, connect}

module _ {F : Type 0} where
  -- The message of `publish_torques`, with the torques as effort.
  abbrev pub torque_message : ℕ → List F → JointState F
  torque_message now torques = record {
    stamp = now;
    name = ur7e_joint_order;
    position = [];
    velocity = [];
    effort = torques;
  }

module _ {F : Type 0} ⦃fl : Floats F⦄ where
  -- The rate that `__init__` falls back from, 20 Hz as `fallback`.
  unfoldable pub publish_rate : F → F → F
  publish_rate fallback publish_rate_hz =
      if fl.le publish_rate_hz fl_zero then fallback else publish_rate_hz

  unfoldable pub ensure_connected : F → List ℕ → Source → Net → Source × List (List ℕ)
  ensure_connected frequency rtde_field s net =
      if is_connected s
      then (s, [])
      else let (s', answer, sent) = connect frequency rtde_field s net in (s', sent)

  unfoldable pub publish_torques : ℕ → Source → List Recv → Source × Option (JointState F)
  publish_torques now s socket =
      let (s', torques) = get_torques s socket in
      (s', elim torques [ none ↦ none | some t ↦ some (torque_message now t) ])

-- `destroy_node`: what it does to the source.
unfoldable pub destroy_node : Source → Source
destroy_node s = disconnect s
