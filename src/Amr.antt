-- ===== src/Amr.antt =====
-- The software of a robot, robot_ws/src.
pub mod Messages
pub mod GoodsPoints
pub mod Behavior
pub mod Navigation
pub mod TaskBridge
