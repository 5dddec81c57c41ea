-- ===== src/Amr/Behavior.antt =====
-- The behaviour manager of a robot, robot_ws/src/amr_behavior_manager.
pub mod State
pub mod Requests
pub mod Commands
pub mod Carries
pub mod Callbacks
pub mod Events
pub mod Promises
pub mod Cycle
pub mod Timers
