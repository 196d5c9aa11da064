-- ===== src/Observer/ReadOnly.antt =====
-- What the observer publishes on each of its topics.
use Prim.Native.String.{String}
use text.Mathlib.Text.{◌==◌ as str_eq}
use digital_twin_based_on_un.Common.{
  ℕ, ◌≡◌, refl, ap₂, ◌∙◌, List, [], ◌∷◌, ◌++◌, list_laws, if_same, if◌then◌else◌, arith,
}
use digital_twin_based_on_un.Bridges.Mirrors.{command_callback, status_callback}
use digital_twin_based_on_un.Observer.{
  Topics, Message, teleop_command, teleop_status, joint_state, pose_stamped, twist_stamped,
  Observed, observed_command, observed_status, observed_joint_velocity, observed_joint_position,
  observed_cartesian_pose, observed_twist, topic_of, subscriptions, notify, observe,
}

-- The six streams that the node mirrors.
pub data Channel : Type 0 where
  of_commands of_statuses of_velocities of_positions of_poses of_twists : Channel

abbrev pub input : Topics → Channel → String
input topics of_commands = topics.command_topic
input topics of_statuses = topics.status_topic
input topics of_velocities = topics.joint_velocity_topic
input topics of_positions = topics.joint_position_topic
input topics of_poses = topics.cartesian_pose_topic
input topics of_twists = topics.twist_topic

abbrev pub output : Channel → String
output of_commands = "/unity/cmd_observed/command"
output of_statuses = "/unity/cmd_observed/status"
output of_velocities = "/unity/cmd_observed/joint_velocity"
output of_positions = "/unity/cmd_observed/joint_position"
output of_poses = "/unity/cmd_observed/cartesian_pose"
output of_twists = "/unity/cmd_observed/twist"

module _ {F : Type 0} where
  -- The messages that are published on a topic.
  abbrev pub published : String → List (Observed F) → List (Observed F)
  published topic [] = []
  published topic (o ∷ os) =
      if str_eq (topic_of o) topic then o ∷ published topic os else published topic os

  -- What a message of the type of a channel looks like to Unity; joint states, poses and twists
  -- are passed on.
  abbrev pub image : Channel → ℕ → Message F → List (Observed F)
  image of_commands now (teleop_command m) = observed_command (command_callback now m) ∷ []
  image of_statuses now (teleop_status m) = observed_status (status_callback now m) ∷ []
  image of_velocities now (joint_state m) = observed_joint_velocity m ∷ []
  image of_positions now (joint_state m) = observed_joint_position m ∷ []
  image of_poses now (pose_stamped m) = observed_cartesian_pose m ∷ []
  image of_twists now (twist_stamped m) = observed_twist m ∷ []
  image _ now m = []

  -- The images of the messages that arrive on the input of a channel, in order.
  abbrev pub mirrored : Topics → Channel → List (ℕ × String × Message F) → List (Observed F)
  mirrored topics c [] = []
  mirrored topics c ((now, topic, m) ∷ ms) =
      (if str_eq (input topics c) topic then image c now m else []) ++ mirrored topics c ms

  published-append :
      (topic : String) (xs ys : List (Observed F))
      → published topic (xs ++ ys) ≡ published topic xs ++ published topic ys
  published-append topic [] ys = refl
  published-append topic (x ∷ xs) ys = ground (arith, published-append topic xs ys)

  -- What each subscription adds to a topic.
  abbrev routed :
      String
      → List (String × (ℕ → Message F → List (Observed F)))
      → ℕ
      → String
      → Message F
      → List (Observed F)
  routed out [] now topic m = []
  routed out ((subscribed, callback) ∷ rest) now topic m =
      (if str_eq subscribed topic then published out (callback now m) else [])
      ++ routed out rest now topic m

  published-notify-routed :
      (out : String) (subs : List (String × (ℕ → Message F → List (Observed F)))) (now : ℕ)
      (topic : String) (m : Message F)
      → published out (notify subs now topic m) ≡ routed out subs now topic m
  published-notify-routed out [] now topic m = refl
  published-notify-routed out ((subscribed, callback) ∷ rest) now topic m = ground (
    arith,
    published-append out (callback now m) (notify rest now topic m),
    published-notify-routed out rest now topic m,
  )

  -- One message, by its type.
  routed_lem :
      (topics : Topics) (c : Channel) (now : ℕ) (topic : String) (m : Message F)
      → routed (output c) (subscriptions topics) now topic m
        ≡ (if str_eq (input topics c) topic then image c now m else [])
  routed_lem topics of_commands now topic (teleop_command m) = simp (if_same, list_laws) refl
  routed_lem topics of_statuses now topic (teleop_status m) = simp (if_same, list_laws) refl
  routed_lem topics of_velocities now topic (joint_state m) = simp (if_same, list_laws) refl
  routed_lem topics of_positions now topic (joint_state m) = simp (if_same, list_laws) refl
  routed_lem topics of_poses now topic (pose_stamped m) = simp (if_same, list_laws) refl
  routed_lem topics of_twists now topic (twist_stamped m) = simp (if_same, list_laws) refl
  routed_lem topics c now topic m = simp (if_same, list_laws) refl

  published-notify :
      (topics : Topics) (c : Channel) (now : ℕ) (topic : String) (m : Message F)
      → published (output c) (notify (subscriptions topics) now topic m)
        ≡ (if str_eq (input topics c) topic then image c now m else [])
  published-notify topics c now topic m =
      published-notify-routed (output c) (subscriptions topics) now topic m
      ∙ routed_lem topics c now topic m

  -- Whatever topics are configured, also when two of them are the same: what the node publishes on
  -- the topic of a channel is the image of the messages that arrived on the input of the channel,
  -- of its type, in order, and nothing else; joint states, poses and twists come out unchanged.
  pub observe_lem :
      (topics : Topics) (c : Channel) (ms : List (ℕ × String × Message F))
      → published (output c) (observe topics ms) ≡ mirrored topics c ms
  unfolding observe
  observe_lem topics c [] = refl
  observe_lem topics c ((now, topic, m) ∷ ms) =
      published-append (output c) (notify (subscriptions topics) now topic m) (observe topics ms)
      ∙ ap₂ (λ xs ys. xs ++ ys) (published-notify topics c now topic m) (observe_lem topics c ms)
