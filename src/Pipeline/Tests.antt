-- ===== src/Pipeline/Tests.antt =====
-- One data packet on its way to Unity.
use digital_twin_based_on_un.Common.{ℕ, ◌≡◌, refl, true, List, [], ◌∷◌, ◌++◌, some, arith}
use digital_twin_based_on_un.Common.Int.{ℤ, pos}
use digital_twin_based_on_un.Common.Samples.{whole_floats}
use digital_twin_based_on_un.Rtde.{frame, next_packet, note_sample}
use digital_twin_based_on_un.Rtde.Socket.{Source, is_connected}
use digital_twin_based_on_un.Rtde.Polling.{Read, deliver}
use digital_twin_based_on_un.Rtde.Publisher.{torque_message, publish_torques}
use digital_twin_based_on_un.Bridges.Joints.{joint_order, joint_torque_callback}
use digital_twin_based_on_un.Pipeline.{publish_torques-joint_torque_callback}

abbrev number : ℕ → List ℕ
number n = 0 ∷ 0 ∷ 0 ∷ 0 ∷ 0 ∷ 0 ∷ 0 ∷ n ∷ []

abbrev payload : List ℕ
payload = 1 ∷ (number 1 ++ (number 2 ++ (number 3 ++ (number 4 ++ (number 5 ++ number 6)))))

abbrev torques : List ℤ
torques = pos 1 ∷ pos 2 ∷ pos 3 ∷ pos 4 ∷ pos 5 ∷ pos 6 ∷ []

abbrev live : Source
live = record { sock = true; buf = []; connected = true }

abbrev reads : List Read
reads =
    (0, 52 ∷ 85 ∷ [])
    ∷ (1, (number 1 ++ (number 2 ++ (number 3 ++ (number 4 ++ (number 5 ++ number 6))))))
    ∷ (0, [])
    ∷ []

publish_torques-joint_torque_callback_example :
    ((publish_torques {F = ℤ} 40 live (deliver reads)).1 ≡ some (torque_message 40 torques))
    × (joint_torque_callback (torque_message 40 torques)
        ≡ some (record { stamp = 40; names = joint_order; torques_nm = torques }))
unfolding frame next_packet is_connected note_sample
publish_torques-joint_torque_callback_example =
    publish_torques-joint_torque_callback 40 live reads ((85, payload) ∷ []) (0 ∷ []) torques refl
      refl (omega arith) refl refl
