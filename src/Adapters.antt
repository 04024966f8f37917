-- ===== src/Adapters.antt =====
-- ahp/adapters: addresses of tools and resources, the registry of tools, and names of groups of agents.
pub mod ToolAddress
pub mod ResourceAddress
pub mod Access
pub mod Groups
pub mod ToolRegistry
