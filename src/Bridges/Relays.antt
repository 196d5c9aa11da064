-- ===== src/Bridges/Relays.antt =====
-- The four bridges with an input and an output topic, as their constructors connect them:
-- joint_state_bridge_ros2unity.py, joint_torque_bridge_ros2unity.py, io_states_bridge_ros2unity.py
-- and tool_data_bridge_ros2unity.py. A subscription with a depth alone is reliable and volatile.
use Prim.Native.String.{String}
use digital_twin_based_on_un.Common.{ℕ, List, [], ◌∷◌, Option, none, some}
use digital_twin_based_on_un.Common.Floats.{Floats}
use digital_twin_based_on_un.Topics.{QosProfile, reliable, volatile}
use digital_twin_based_on_un.Msgs.{JointState}
use digital_twin_based_on_un.Params.Mirror.{Settings}
use digital_twin_based_on_un.Bridges.Joints.{
  JointStateUnity, JointTorqueUnity, joint_state_callback, joint_torque_callback,
}
use digital_twin_based_on_un.Bridges.Mirrors.{
  ToolData, ToolDataUnity, IoStates, IoStatesUnity, tool_data_callback, io_states_callback,
}

-- A subscription, its callback with the clock that it reads, and the publisher that it uses.
pub record Relay (M O : Type 0) : Type 0 where
  pub input_topic : String
  pub qos : QosProfile
  pub callback : ℕ → M → Option O
  pub output_topic : String

module _ {M O : Type 0} where
  -- What the callbacks publish, each for a clock reading and a message.
  unfoldable pub relay : Relay M O → List (ℕ × M) → List (String × O)
  relay b [] = []
  relay b ((now, msg) ∷ es) = elim (b.callback now msg) [
    | none ↦ relay b es
    | some out ↦ (b.output_topic, out) ∷ relay b es
  ]

module _ {F : Type 0} ⦃fl : Floats F⦄ where
  unfoldable pub joint_state_bridge : Settings → Relay (JointState F) (JointStateUnity F)
  joint_state_bridge s = record {
    input_topic = s.input_topic;
    qos = record { depth = 10; reliability = reliable; durability = volatile };
    callback = λ now msg. joint_state_callback msg;
    output_topic = s.output_topic;
  }

module _ {F : Type 0} where
  unfoldable pub joint_torque_bridge : Settings → Relay (JointState F) (JointTorqueUnity F)
  joint_torque_bridge s = record {
    input_topic = s.input_topic;
    qos = record { depth = 10; reliability = reliable; durability = volatile };
    callback = λ now msg. joint_torque_callback msg;
    output_topic = s.output_topic;
  }

  unfoldable pub io_states_bridge : Settings → Relay (IoStates F) (IoStatesUnity F)
  io_states_bridge s = record {
    input_topic = s.input_topic;
    qos = record { depth = 10; reliability = reliable; durability = volatile };
    callback = λ now msg. some (io_states_callback now msg);
    output_topic = s.output_topic;
  }

  unfoldable pub tool_data_bridge : Settings → Relay (ToolData F) (ToolDataUnity F)
  tool_data_bridge s = record {
    input_topic = s.input_topic;
    qos = record { depth = 10; reliability = reliable; durability = volatile };
    callback = λ now msg. some (tool_data_callback now msg);
    output_topic = s.output_topic;
  }
