-- ===== src/Planning.antt =====
-- The planning engine (services/planning-engine): its task graph and the life of its nodes.
pub mod Model
pub mod Admission
pub mod Cycle
pub mod Completion
pub mod Store
mod Tests
