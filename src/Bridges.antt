-- ===== src/Bridges.antt =====
-- The state bridges, which mirror what the robot driver publishes to Unity: digital_twin_on_unity
-- _and_ros2/digital_twin_on_unity_and_ros2/state_bridges/ under the repository's src/.
pub mod Joints
pub mod Complete
pub mod Status
pub mod Latest
pub mod Subscriptions
pub mod Arrivals
pub mod Joining
pub mod Relays
pub mod Relayed
pub mod Mirroring
pub mod Polls
pub mod Retained
pub mod Mirrors
mod Tests
mod TestsState
