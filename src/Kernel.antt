-- ===== src/Kernel.antt =====
-- The kernel of agent-os (agent-os/kernel): dispatch of ready tasks to agents, and what a restart
-- recovers.
pub mod Model
pub mod State
pub mod Scheduler
pub mod Reconciliation
mod Tests
