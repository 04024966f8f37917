-- ===== src/Engine/Pipeline.antt =====
-- ahp/engine/router.py: `_broker_send_get` and `_broker_cast_get`, a dispatch with a hold before it
-- and a settlement after it. The bus answers by what was asked of it so far; the milliseconds that it
-- takes, the length of a body's text and the number that a body gives for the response are parameters.
pub mod Holds
pub mod SendGet
pub mod CastGet
pub mod Asks
pub mod Guards
use Prim.Native.String.{◌++◌ as join}
use agent_handshake_protocol.Prelude.{
  ℕ, String, Bool, true, false, Option, none, some, List, [], ◌∷◌, ◌==◌, if◌then◌else◌,
}
use agent_handshake_protocol.Prelude.Int.{ℤ, pos}
use agent_handshake_protocol.Prelude.Dict.{Dict, lookup, insert}
use agent_handshake_protocol.Prelude.Exec.{Exec, Result, ok, err}
use agent_handshake_protocol.Prelude.Lists.{contains}
use agent_handshake_protocol.Core.Address.{AgentAddress}
use agent_handshake_protocol.Core.Address.Text.{str}
use agent_handshake_protocol.Economy.Tiers.{small}
use agent_handshake_protocol.Economy.Pricing.{
  estimate_hold, default_expected_response_chars, matched,
}
use agent_handshake_protocol.Economy.ComputeProvider.{MenuLeaf}
use agent_handshake_protocol.Economy.ComputeProvider.Ranking.{best_leaf}
use agent_handshake_protocol.Economy.Wallet.{
  WalletError, insufficient_funds, unknown_hold, value_error,
}
use agent_handshake_protocol.Economy.WalletClient.{
  WalletFailure, from_state, watch_error, retries_exhausted,
}
use agent_handshake_protocol.Broker.Settlement
use agent_handshake_protocol.Broker.Servers.{ServerMeta, discover}
use agent_handshake_protocol.Broker.Compute.{Menu, list_leaves}
use agent_handshake_protocol.Broker.Facade.{BrokerState, Broker}
use agent_handshake_protocol.Broker.Facade.Settling.{calculate_and_settle}
use agent_handshake_protocol.Engine.Message.{Message, Body, no_body, text, dict}
use agent_handshake_protocol.Engine.Services.{EngineError, Trace, Services, asked, cast_asked}

pub data PipelineError : Type 0 where
  from_engine : EngineError → PipelineError
  from_wallet : WalletFailure → PipelineError

-- what is asked of the bus, and the broker's stores
pub record Plane : Type 0 where
  pub trace : Trace
  pub broker : BrokerState

-- the engine's services and its broker, and what the pipelines draw from outside
pub record Wiring : Type 0 where
  pub services : Services
  pub facade : Broker
  pub body_chars : Body → ℕ
  pub given_chars : Body → Option ℤ
  pub latency_ms : ℕ

-- the server and the leaf that a call is billed to
pub record Held : Type 0 where
  pub hold_id : String
  pub server : ServerMeta
  pub leaf : Option MenuLeaf

-- `InsufficientFundsError`, which the pipelines expect
unfoldable pub is_short : WalletFailure → Bool
is_short (from_state insufficient_funds) = true
is_short (from_state unknown_hold) = false
is_short (from_state value_error) = false
is_short watch_error = false
is_short retries_exhausted = false

-- the first server of an organization: `next(...)`
unfoldable pub first_of_org : String → List ServerMeta → Option ServerMeta
first_of_org org [] = none
first_of_org org (s ∷ servers) = if s.org == org then some s else first_of_org org servers

-- the last one: `{s.org: s for s in owning_servers}.get(org)`
unfoldable pub last_of_org : String → List ServerMeta → Option ServerMeta
last_of_org org [] = none
last_of_org org (s ∷ servers) = elim (last_of_org org servers) [
  | some t ↦ some t
  | none ↦ if s.org == org then some s else none
]

module _ (w : Wiring) where
  -- `len(str(message.body)) if message.body is not None else 0`
  abbrev pub chars_of : Body → ℤ
  chars_of no_body = pos 0
  chars_of (text s) = pos (w.body_chars (text s))
  chars_of (dict d params) = pos (w.body_chars (dict d params))

  -- `int(body.get("max_response_chars", ...))` of a dict, the default where that raises
  unfoldable pub max_resp : Body → ℤ
  max_resp no_body = pos default_expected_response_chars
  max_resp (text s) = pos default_expected_response_chars
  max_resp (dict d params) = elim (w.given_chars (dict d params)) [
    | none ↦ pos default_expected_response_chars
    | some n ↦ n
  ]

  -- the live servers
  unfoldable pub owning_servers : BrokerState → List ServerMeta
  unfolding discover
  owning_servers s = discover s.redis.clock none none none none true s.servers

  -- the leaf of a server, and the menu after its listing
  unfoldable pub chosen_leaf : ServerMeta → BrokerState → Option MenuLeaf
  unfolding list_leaves best_leaf
  chosen_leaf server s =
      best_leaf [] server.compute_binding server.compute_ranking
        (list_leaves s.redis.clock true s.compute).0

  abbrev pub listed : BrokerState → BrokerState
  listed s = record s { compute = (list_leaves s.redis.clock true s.compute).1 }

  -- the amount of the hold
  unfoldable pub hold_amount : Message → ServerMeta → Option MenuLeaf → ℤ
  unfolding estimate_hold max_resp
  hold_amount m server leaf =
      pos
        (estimate_hold server.base_rate small (chars_of m.body) (max_resp m.body)
          (elim leaf [ none ↦ 0 | some l ↦ l.rate_per_1k_chars ])).amount

  abbrev pub on_broker : Plane → BrokerState → Plane
  on_broker p s = record p { broker = s }

  -- `broker.hold`, in the caller's wallet
  unfoldable pub place :
      Message
      → (hold_id : String) (amount : ℤ) (reason : String) → BrokerState
      → Result WalletFailure (Unit {0}) × BrokerState
  unfolding Settlement.hold
  place m hold_id amount reason s =
      let (answer, redis) =
        Settlement.hold w.facade.conflict (str m.source) amount hold_id reason s.redis in
      (answer, record s { redis = redis })

  -- `broker.refund`
  unfoldable pub give_back :
      Message
      → (hold_id reason : String) → BrokerState
      → Result WalletFailure (Unit {0}) × BrokerState
  unfolding Settlement.refund
  give_back m hold_id reason s =
      let (answer, redis) =
        Settlement.refund w.facade.conflict (str m.source) hold_id reason s.redis in
      (answer, record s { redis = redis })

  -- the settlement of a response; when it raises, the hold is refunded, and what that raises is
  -- swallowed
  abbrev pub or_give_back :
      {A : Type 0}
      → Message
      → (hold_id : String) → Result WalletFailure A × BrokerState
      → BrokerState
  or_give_back m hold_id (ok _, s) = s
  or_give_back m hold_id (err _, s) = (give_back m hold_id "settlement raised" s).1

  unfoldable pub settle_response : Message → Held → (response : Message) → BrokerState → BrokerState
  unfolding calculate_and_settle give_back max_resp
  settle_response m h response s = or_give_back m h.hold_id (
      calculate_and_settle w.facade (str m.source) h.hold_id h.server h.leaf
        (chars_of response.body) (max_resp m.body) w.latency_ms (pos 0) matched
        (some response.source) s)

  -- a refund whose exception is raised, before what follows it
  abbrev pub then_answer :
      {A : Type 0}
      → Result PipelineError A
      → Plane
      → Result WalletFailure (Unit {0}) × BrokerState
      → Result PipelineError A × Plane
  then_answer answer p (ok _, s) = (answer, on_broker p s)
  then_answer answer p (err e, s) = (err (from_wallet e), on_broker p s)

  -- what follows the dispatch of a SEND-GET
  abbrev pub conclude :
      Message
      → Held
      → Result EngineError (Option Message)
      → Plane
      → Result PipelineError (Option Message) × Plane
  conclude m h (err e) p =
      then_answer (err (from_engine e)) p (give_back m h.hold_id "dispatch exception" p.broker)
  conclude m h (ok none) p =
      then_answer (ok none) p
        (give_back m h.hold_id "no response (timeout or target dead)" p.broker)
  conclude m h (ok (some response)) p =
      (ok (some response), on_broker p (settle_response m h response p.broker))

  -- `bus.send_get`
  abbrev pub bus_send_get :
      Message → (timeout : ℕ) → Plane → Result EngineError (Option Message) × Plane
  bus_send_get m timeout p =
      (w.services.send_get p.trace m timeout, record p { trace = asked m timeout ∷ p.trace })

  -- what follows the hold of a SEND-GET
  abbrev pub after_hold :
      Message
      → Held
      → (timeout : ℕ) → Plane
      → Result WalletFailure (Unit {0}) × BrokerState
      → Result PipelineError (Option Message) × Plane
  after_hold m h timeout p (ok _, s) =
      let (answer, q) = bus_send_get m timeout (on_broker p s) in conclude m h answer q
  after_hold m h timeout p (err e, s) =
      if is_short e then (ok none, on_broker p s) else (err (from_wallet e), on_broker p s)

  abbrev pub lift_engine :
      {A : Type 0} → Result EngineError A × Plane → Result PipelineError A × Plane
  lift_engine (ok a, p) = (ok a, p)
  lift_engine (err e, p) = (err (from_engine e), p)

  -- what the hold of a SEND-GET is for
  unfoldable pub held_for : Message → ServerMeta → BrokerState → Held
  unfolding chosen_leaf
  held_for m server s = record {
    hold_id = join "msg:" m.message_id;
    server = server;
    leaf = chosen_leaf server s;
  }

  -- `_broker_send_get`, once the owning server is known
  unfoldable pub billed_send_get :
      Message
      → AgentAddress
      → (timeout : ℕ) → ServerMeta
      → Plane
      → Result PipelineError (Option Message) × Plane
  unfolding hold_amount place give_back settle_response list_leaves held_for is_short
  billed_send_get m target timeout server p =
      let h = held_for m server p.broker in
      after_hold m h timeout p (
        place m h.hold_id (hold_amount m server h.leaf) (join "send_get to " (str target))
          (listed p.broker))

  -- `_broker_send_get`
  unfoldable pub broker_send_get :
      Message → AgentAddress → (timeout : ℕ) → Plane → Result PipelineError (Option Message) × Plane
  unfolding owning_servers first_of_org billed_send_get
  broker_send_get m target timeout p = elim (first_of_org target.org (owning_servers p.broker)) [
    | none ↦ lift_engine (bus_send_get m timeout p)
    | some server ↦ billed_send_get m target timeout server p
  ]
