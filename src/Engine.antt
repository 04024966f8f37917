-- ===== src/Engine.antt =====
-- ahp/engine: the dispatcher of messages with its access rules, and the broker pipelines around it.
pub mod Scope
pub mod Message
pub mod Threads
pub mod Services
pub mod Dispatch
pub mod Pipeline
