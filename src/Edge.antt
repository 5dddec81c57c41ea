-- ===== src/Edge.antt =====
-- The edge server, edge_server/src.
pub mod Sql
pub mod Rows
pub mod Types
pub mod Schema
pub mod Allocations
pub mod TaskCreation
pub mod TaskStore
pub mod TaskService
pub mod TaskReports
pub mod Stable
pub mod History
pub mod MapStore
pub mod MapService
pub mod IdlePoints
pub mod RobotTypes
pub mod Robots
pub mod RobotStore
pub mod Heartbeat
pub mod RobotService
pub mod AmrCommunication
