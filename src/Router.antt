-- ===== src/Router.antt =====
-- The router of the model orchestration engine (services/ai-model-orchestration-engine): which model
-- serves a request, and what happens when one fails.
pub mod Model
pub mod Plan
pub mod Route
pub mod Pool
pub mod Attempts
pub mod Fallback
pub mod Record
pub mod Recording
pub mod Embed
pub mod Perceive
mod Tests
