-- ===== src/Action.antt =====
-- The action engine (services/action-engine): actions through validation, the identity gate,
-- approval, execution and rollback.
pub mod Model
pub mod Risk
pub mod Spelling
pub mod Store
pub mod Approval
pub mod Execution
pub mod Pipeline
pub mod Progress
pub mod Steps
pub mod Replies
pub mod Waiting
pub mod Concluding
pub mod Polling
pub mod Gated
pub mod Outcomes
pub mod Runs
pub mod Clearance
pub mod Repeats
mod Tests
