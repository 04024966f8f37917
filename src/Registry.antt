-- ===== src/Registry.antt =====
-- ahp/registry: who is registered, who is alive, who may say so, and the scores of agents.
pub mod Auth
pub mod Store
pub mod Nudges
