-- ===== src/Communication.antt =====
-- The communication engine (services/communication-engine): the life of a conversation session.
pub mod StateMachine
pub mod Store
pub mod Lifecycle
pub mod Sessions
pub mod Delivery
pub mod Requests
mod Tests
