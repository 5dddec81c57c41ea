-- ===== src/Amr/Navigation.antt =====
-- The navigation package of a robot, robot_ws/src/amr_navigation.
pub mod Manager
pub mod State
pub mod Process
pub mod Nav2
pub mod Goals
pub mod Server
pub mod Template
