-- ===== src/Bridges/Mirroring.antt =====
-- The four bridges with an input and an output topic: Unity sees the last message.
mod Tests
use Prim.Native.String.{String}
use text.Mathlib.TextEquality.{eq_iff}
use digital_twin_based_on_un.Common.{
  ℕ, ◌≡◌, refl, sym, ap, ◌∙◌, Bool, true, false, inl, inr, List, [], ◌∷◌, map, Option, none, some,
  is_some, if◌then◌else◌, arith, Option-cases,
}
use digital_twin_based_on_un.Common.Floats.{Floats, fl_zero}
use digital_twin_based_on_un.Topics.{Middleware, KeepsLast, final, on_topic, streaming_qos}
use digital_twin_based_on_un.Msgs.{JointState}
use digital_twin_based_on_un.Params.Mirror.{Settings}
use digital_twin_based_on_un.Bridges.Joints.{
  JointStateUnity, JointTorqueUnity, joint_order, get_or, joint_state_callback,
  joint_torque_callback,
}
use digital_twin_based_on_un.Bridges.Mirrors.{
  ToolData, ToolDataUnity, IoStates, IoStatesUnity, DigitalPin, AnalogPin, label_of,
  tool_mode_labels, tool_data_callback, io_states_callback,
}
use digital_twin_based_on_un.Bridges.Complete.{
  last_value, all_known, joint_state_callback_lem, joint_torque_callback_lem,
}
use digital_twin_based_on_un.Bridges.Relays.{
  Relay, relay, joint_state_bridge, joint_torque_bridge, io_states_bridge, tool_data_bridge,
}
use digital_twin_based_on_un.Bridges.Relayed.{messages, final-arrived, pins_of, pins_of_lem}

-- The four bridges, by what they pass on.
pub data Mirror : Type 0 where
  joint_states joint_torques io_states tool_data : Mirror

module _ (F : Type 0) where
  abbrev pub Message : Mirror → Type 0
  Message joint_states = JointState F
  Message joint_torques = JointState F
  Message io_states = IoStates F
  Message tool_data = ToolData F

  abbrev pub Output : Mirror → Type 0
  Output joint_states = JointStateUnity F
  Output joint_torques = JointTorqueUnity F
  Output io_states = IoStatesUnity F
  Output tool_data = ToolDataUnity F

  -- The message has a position, or an effort, of each of the six joints.
  abbrev pub HasJoints : (k : Mirror) → Message k → Type 0
  HasJoints joint_states m =
      all_known (λ (n : String). last_value n m.name m.position) joint_order ≡ true
  HasJoints joint_torques m =
      all_known (λ (n : String). last_value n m.name m.effort) joint_order ≡ true
  HasJoints io_states m = Unit
  HasJoints tool_data m = Unit

module _ (F : Type 0) ⦃fl : Floats F⦄ where
  abbrev pub bridge_of : (k : Mirror) → Settings → Relay (Message F k) (Output F k)
  bridge_of joint_states s = joint_state_bridge s
  bridge_of joint_torques s = joint_torque_bridge s
  bridge_of io_states s = io_states_bridge s
  bridge_of tool_data s = tool_data_bridge s

  -- The joints in their order, the pins as they were, and the fields of the tool.
  abbrev pub Shows : (k : Mirror) → Message F k → Output F k → Type 0
  Shows joint_states m o =
      let degrees_of : List F → String → F =
        λ values n. fl.degrees (get_or (last_value n m.name values) fl_zero) in
      (o.names ≡ joint_order)
      × (o.positions ≡ map (degrees_of m.position) joint_order)
      × (o.velocities ≡ map (degrees_of m.velocity) joint_order)
      × (o.efforts ≡ map (λ n. get_or (last_value n m.name m.effort) fl_zero) joint_order)
  Shows joint_torques m o =
      (o.stamp ≡ m.stamp)
      × (o.names ≡ joint_order)
      × (o.torques_nm ≡ map (λ n. get_or (last_value n m.name m.effort) fl_zero) joint_order)
  Shows io_states m o = pins_of o ≡ m
  Shows tool_data m o =
      (o.tool_voltage_48v ≡ m.tool_voltage_48v)
      × (o.tool_output_voltage ≡ m.tool_output_voltage)
      × (o.tool_current ≡ m.tool_current)
      × (o.tool_temperature ≡ m.tool_temperature)
      × (o.tool_mode ≡ m.tool_mode)
      × (o.tool_mode_label ≡ label_of m.tool_mode tool_mode_labels)

  module _ (s : Settings) where
    -- Each connects the two topics of its settings, with volatile queues.
    bridge_of-topics :
        (k : Mirror)
        → ((bridge_of k s).input_topic ≡ s.input_topic)
          × ((bridge_of k s).output_topic ≡ s.output_topic)
          × ((bridge_of k s).qos ≡ streaming_qos)
    unfolding joint_state_bridge joint_torque_bridge io_states_bridge tool_data_bridge
    bridge_of-topics joint_states = (refl, refl, refl)
    bridge_of-topics joint_torques = (refl, refl, refl)
    bridge_of-topics io_states = (refl, refl, refl)
    bridge_of-topics tool_data = (refl, refl, refl)

    -- A complete message has an image, which shows it.
    callback-Shows :
        (k : Mirror) (now : ℕ) (m : Message F k)
        → HasJoints F k m
        → (o : Output F k) × ((bridge_of k s).callback now m ≡ some o) × Shows k m o
    unfolding joint_state_bridge joint_torque_bridge io_states_bridge tool_data_bridge
        tool_data_callback
    callback-Shows joint_states now m known =
        (_, rw known at (joint_state_callback_lem m), (refl, refl, refl, refl))
    callback-Shows joint_torques now m known =
        (_, rw known at (joint_torque_callback_lem fl_zero m), (refl, refl, refl))
    callback-Shows io_states now m known = (io_states_callback now m, refl, pins_of_lem now m)
    callback-Shows tool_data now m known =
        (tool_data_callback now m, refl, (refl, refl, refl, refl, refl, refl))

    callback-is_some :
        (k : Mirror) (now : ℕ) (m : Message F k)
        → HasJoints F k m
        → is_some ((bridge_of k s).callback now m) ≡ true
    callback-is_some k now m known =
        let (o, e, shows) = callback-Shows k now m known in ap is_some e

    -- When queues keep the last messages: for each of the four bridges with an input and an output
    -- topic, whatever the topics, and whatever was published before it and after it, on whatever
    -- topics: once it has taken the messages that arrived, and the last message published on its
    -- input topic since then holds a position of each of the six joints, or an effort for the
    -- torques, the last message that it published on its output topic shows it: the joints in the
    -- fixed order with their last values, positions and velocities in degrees, or the torques with
    -- the stamp; the digital and analog pins, which can be put together again as they were; or the
    -- fields of the tool, with the label of its mode.
    pub relay_lem :
        (k : Mirror) (arrives : Middleware (Message F k)) (law : KeepsLast arrives)
        (before after : List (String × Message F k)) (es : List (ℕ × Message F k)) (m : Message F k)
        → messages (bridge_of k s) es
          ≡ arrives
              (bridge_of k s).qos
              (on_topic s.input_topic before)
              (on_topic s.input_topic after)
        → final none (on_topic s.input_topic after) ≡ some m
        → HasJoints F k m
        → (o : Output F k) × (final none (on_topic s.output_topic (relay (bridge_of k s) es))
            ≡ some o)
          × Shows k m o
    relay_lem k arrives law before after es m arrived last known =
        let b = bridge_of k s in
        let (into, out, qos) = bridge_of-topics k in
        let (now, e) =
          final-arrived b arrives law before after es m qos (rw into arrived) (rw into last)
            (λ now. callback-is_some k now m known) in
        let (o, image, shows) = callback-Shows k now m known in
        (o, ap (λ t. final none (on_topic t (relay b es))) (sym out) ∙ e ∙ image, shows)
