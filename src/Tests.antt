-- ===== src/Tests.antt =====
-- Runs of the models on small data: one task of ten boxes for one robot, and one map package.
pub mod Samples
pub mod Store
pub mod Service
pub mod Fleet
pub mod Robots
pub mod Histories
pub mod Amr
pub mod System
pub mod Navigation
