-- ===== src/Tests.antt =====
-- The theorems at concrete inputs.
pub mod Core
pub mod Formats
pub mod Economy
pub mod Pricing
pub mod Broker
pub mod Engine
pub mod Registry
pub mod Routing
pub mod Banker
pub mod Compute
pub mod Surveys
pub mod Facade
pub mod Pipeline
pub mod Transport
pub mod Adapters
