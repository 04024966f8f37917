-- ===== src/Lib.antt =====
-- The Agent Handshake Protocol (ahp): agents with structured addresses exchange messages through an
-- engine, and pay each other for answers through a broker.
--
-- The parts, and the files that model them:
--   * Core/Codes.antt: ahp/core/codes.py, the interaction codes (constants in Codes/Families.antt and
--     Codes/Turns.antt) and `Code.family`, `is_error`, `matches`.
--   * Core/Compatibility.antt: ahp/core/compatibility.py, `CompatibilityMatrix`; its table is in
--     Compatibility/Families.antt and Compatibility/Turns.antt. A set of tiers is a text.
--   * Core/Pattern.antt and Core/Address.antt: ahp/core/pattern.py and ahp/core/address.py,
--     `AddressPattern` and `AgentAddress`. The field `instance` is `instance_name` here.
--   * Formats/Shape.antt and Formats.antt: ahp/adapters/formats.py, `Format` and FORMATS; the sessions
--     are in Formats/Sessions.antt, the game modes of ahp/adapters/game_modes.py in the other files.
--   * Economy/Tiers.antt, Economy/Pricing.antt, Economy/Reputation.antt: ahp/economy/tiers.py,
--     pricing.py and reputation.py.
--   * Economy/Wallet.antt: ahp/economy/wallet.py, `WalletState` and the pure `apply_*` functions;
--     Economy/WalletClient.antt: class `Wallet`, the optimistic transactions around them.
--   * Economy/ComputeProvider.antt: ahp/economy/compute_provider.py, the leaves of the menu; their
--     ranking is in ComputeProvider/Ranking.antt.
--   * Broker/Settlement.antt, Broker/Facade.antt and Broker/Facade/Settling.antt: ahp/broker/broker.py,
--     `Broker`, on the state of all its parts; Broker/Banker.antt: ahp/economy/agent_banker.py,
--     `AgentBanker`.
--   * Broker/Servers.antt and Broker/Compute.antt: ahp/broker/server_registry.py and
--     compute_registry.py, `ServerRegistry` and `ComputeProviderRegistry`.
--   * Broker/Routing.antt and Broker/Routing/Resolve.antt: ahp/broker/router.py, `Router`;
--     Broker/Routing/Route.antt: the same over both registries.
--   * Broker/Surveys.antt, Surveys/Corpus.antt and Facade/Answers.antt: ahp/broker/surveys.py,
--     `SurveyQueue` and the export; the answers pay rewards and move scores, so they stand under the
--     broker.
--   * Engine/Scope.antt: ahp/engine/scope.py; Engine/Message.antt: ahp/core/message.py;
--     Engine/Services.antt and Engine/Dispatch.antt: ahp/engine/router.py, `ProtocolEngine`;
--     Engine/Pipeline.antt and Engine/Pipeline/CastGet.antt: its `_broker_send_get` and
--     `_broker_cast_get`, over the whole broker.
--   * Registry/Auth.antt and Registry/Store.antt: ahp/registry/auth.py and registry.py,
--     `AgentRegistry`; Registry/Nudges.antt: its `update_reputation`; Core/Address/Text.antt: the text
--     of an address, which is its key.
--     Engine/Dispatch/Registered.antt joins the engine to the registry, and Dispatch/Cached.antt to
--     the cache; Engine/Pipeline/Guards.antt joins it to the pipelines.
--   * Engine/Threads.antt: ahp/engine/thread_manager.py, `ThreadManager`; Transport/Cache.antt:
--     ahp/transport/cache.py, `ProtocolCache`.
--   * Adapters/ToolAddress.antt, ResourceAddress.antt, ToolRegistry.antt and Groups.antt:
--     ahp/adapters/tool_address.py, tool_registry.py and groups.py.
--   * Prelude.antt and its children: what the parts share. Tests.antt: the theorems at concrete
--     inputs.
--
-- The engine asks the codes, the formats and the scope policy whether a message may pass; the broker
-- routes a call, prices it, holds the price in the caller's wallet and settles it over the wallets.
--
-- State and numbers. Amounts, rates and scores, which are floats in the code, are exact: whole
-- numbers of units fine enough for every product of the prices (4 * 10^28 to a credit), and
-- scores in thousandths or millionths. Floating-point rounding is not modelled. `log10` is a
-- parameter, in millionths. A wallet's transaction and an update of an agent's reputation have the
-- eight rounds of the code; what other clients write in each round, and how the client library
-- answers a conflict, are parameters. A sorted set is a list that is sorted when it is read. Keys that
-- expire keep the time of their expiry, and the clock is part of the state.
-- The engine's state is the list of what it has asked of the bus, the cache and the audit sink;
-- what they answer is any function of that list. No other definition runs on fuel: all are by
-- recursion on lists and texts.
--
-- Not modelled: the bus over Redis, which is an interface for the engine, the dispatch of surveys
-- over the bus, the parsing of addresses, JSON and what happens to records that do not parse,
-- audit events other than the registry's and the engine's, the other adapters to agent
-- frameworks, the command line and the demos.
pub mod Prelude
pub mod Core
pub mod Formats
pub mod Economy
pub mod Broker
pub mod Engine
pub mod Registry
pub mod Adapters
pub mod Transport
pub mod Tests
