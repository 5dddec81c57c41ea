-- ===== src/System.antt =====
-- The robot and the edge server together: robot_ws/src and edge_server/src.
pub mod Carries
