-- ===== src/Supervisors.antt =====
-- The supervisors of agent-os (agent-os/supervisors): which instances a failure restarts.
pub mod Restart
pub mod Conflict
mod Tests
