-- ===== src/Tests/Pipeline.antt =====
-- The pipeline around a call at concrete inputs.
use agent_handshake_protocol.Prelude.{refl, true, false, none, some, [], ◌∷◌}
use agent_handshake_protocol.Prelude.Dict.{lookup}
use agent_handshake_protocol.Core.Address.Text.{str}
use agent_handshake_protocol.Economy.WalletClient.{get_state, wallet_key, from_json}
use agent_handshake_protocol.Broker.Settlement.Holds.{Frees}
use agent_handshake_protocol.Engine.Pipeline.{Plane, Wiring, broker_send_get}
use agent_handshake_protocol.Engine.Pipeline.SendGet.{broker_send_get-Frees}
use agent_handshake_protocol.Engine.Pipeline.CastGet.{broker_cast_get}
use agent_handshake_protocol.Engine.Pipeline.CastGet.Clears.{Clears, broker_cast_get-Clears}
use agent_handshake_protocol.Core.Codes
use agent_handshake_protocol.Core.Pattern
use agent_handshake_protocol.Core.Compatibility.{can_route}
use agent_handshake_protocol.Engine.Scope.{ScopeRule, is_allowed}
use agent_handshake_protocol.Engine.Message.{Message, Verb}
use agent_handshake_protocol.Engine.Services.{ProtocolEngine, asked}
use agent_handshake_protocol.Engine.Dispatch.{handle}
use agent_handshake_protocol.Engine.Dispatch.Gates.Guarded.{AllGuarded}
use agent_handshake_protocol.Engine.Pipeline.Guards.{over_pipelines, handle-IsGuarded}
use agent_handshake_protocol.Tests.Core.{analyst, finance}
use agent_handshake_protocol.Tests.Engine.{claim, services, rhetor, only_analyst, engine}
use agent_handshake_protocol.Tests.Routing.{server}
use agent_handshake_protocol.Tests.Facade.{broker, state}

-- every body is as long as ten characters
abbrev pub wiring : Wiring
wiring = record {
  services = services true;
  facade = broker;
  body_chars = λ b. 10;
  given_chars = λ b. none;
  latency_ms = 100;
}

-- a live server of the analyst's organisation
abbrev pub plane : Plane
plane = record {
  trace = [];
  broker = record state {
    servers = record {
      servers = ("tifin", server "tifin" [] 100) ∷ [];
      markers = ("tifin", 30) ∷ [];
    };
  };
}

broker_send_get-Frees_example :
    Frees "tifin.rhetor.finance.risk.sj.session.r1" "msg:m1" plane.broker.redis
      (broker_send_get wiring claim analyst 5 plane).1.broker.redis
unfolding get_state lookup wallet_key from_json str
broker_send_get-Frees_example = broker_send_get-Frees wiring claim analyst 5 plane refl refl

-- the analyst is asked twice, and nobody answers
broker_cast_get-Clears_example :
    Clears wiring claim "msg:m1:t:tifin.analyst.finance.risk.sj.session.a1"
      (broker_cast_get wiring claim (analyst ∷ rhetor ∷ analyst ∷ []) 5 none plane)
unfolding get_state lookup wallet_key from_json str
broker_cast_get-Clears_example =
    broker_cast_get-Clears wiring claim "msg:m1:t:tifin.analyst.finance.risk.sj.session.a1"
      (analyst ∷ rhetor ∷ analyst ∷ []) 5 none plane refl refl

-- everybody reaches finance
abbrev pub open_rule : ScopeRule
open_rule = record only_analyst { allow_sources = finance }

-- a claim that waits for its answer
abbrev pub asking : Message
asking = record claim { verb = Verb.send_get }

-- The cache is cold, so the claim passes both gates and is asked through the broker; it has been asked
-- before.
abbrev pub wired_engine : ProtocolEngine
wired_engine =
    over_pipelines (record wiring { services = services false }) (λ x. "wallet")
      (some (λ t. plane.broker)) (record engine { scope = some (open_rule ∷ []) })

handle-IsGuarded_example :
    AllGuarded wired_engine
      (handle wired_engine (λ a b. true) asking none none (asked asking 5 ∷ [])).1
unfolding can_route is_allowed Pattern.matches Codes.matches
handle-IsGuarded_example =
    handle-IsGuarded (record wiring { services = services false }) (λ x. "wallet")
      (some (λ t. plane.broker)) (record engine { scope = some (open_rule ∷ []) }) (λ a b. true)
      asking none none (asked asking 5 ∷ []) ((analyst, refl, refl), tt)
