-- ===== src/Broker.antt =====
-- ahp/broker: settlement, the registries of servers and leaves, routing, surveys, and the broker over
-- all of them; ahp/economy/agent_banker.py, which moves credits the same way.
pub mod Settlement
pub mod Servers
pub mod Compute
pub mod Routing
pub mod Banker
pub mod Surveys
pub mod Facade
