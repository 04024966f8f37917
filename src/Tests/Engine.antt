-- ===== src/Tests/Engine.antt =====
-- Messages and policies at concrete inputs.
use agent_handshake_protocol.Prelude.{◌≡◌, refl, Bool, true, none, some, [], ◌∷◌, if◌then◌else◌}
use agent_handshake_protocol.Prelude.Exec.{ok, err}
use agent_handshake_protocol.Core.Address.{AgentAddress}
use agent_handshake_protocol.Core.Codes
use agent_handshake_protocol.Core.Pattern
use agent_handshake_protocol.Core.Compatibility.{can_route}
use agent_handshake_protocol.Engine.Scope.{ScopeRule, is_allowed}
use agent_handshake_protocol.Engine.Message.{Message, Verb, address, no_body}
use agent_handshake_protocol.Engine.Services.{Services, ProtocolEngine}
use agent_handshake_protocol.Engine.Dispatch.{handle_send, handle_send_get, handle_cast}
use agent_handshake_protocol.Engine.Dispatch.Gates.Refusals.{
  refusal, handle_send-refused, handle_send_get-refused,
}
use agent_handshake_protocol.Tests.Core.{analyst, finance}

abbrev pub rhetor : AgentAddress
rhetor = record analyst { role = "rhetor"; instance_name = "r1" }

-- a claim in a persuasion
abbrev pub claim : Message
claim = record {
  source = rhetor;
  target = address analyst;
  verb = Verb.send;
  code = "turn.claim";
  thread = "thread-1";
  body = no_body;
  timestamp = 7;
  ttl = 3600;
  reply_to = none;
  message_id = "m1";
  format = some "persuasion";
}

-- only the analyst reaches finance
abbrev pub only_analyst : ScopeRule
only_analyst = record {
  target = finance;
  allow_sources = record finance { role = "analyst" };
  code = "*";
  description = "";
}

-- everybody is alive, nobody answers, and every claim is in the cache
abbrev pub services : Bool → Services
services warm = record {
  is_alive = λ t a. true;
  resolve = λ t p. analyst ∷ rhetor ∷ [];
  cached = λ t m. if warm then some claim else none;
  send = λ t m. ok 1;
  send_get = λ t m n. ok none;
  cast = λ t m targets. ok 2;
  cast_get = λ t m targets n k. ok [];
  invalidate = λ t p params. 0;
}

abbrev pub engine : ProtocolEngine
engine = record {
  services = services true;
  default_timeout = 5;
  scope = some (only_analyst ∷ []);
  audit = true;
  broker = none;
}

handle_send-refused_example :
    (handle_send engine claim [] ≡ (err (refusal claim analyst), []))
    × (handle_cast engine claim [] ≡ (ok 0, []))
unfolding can_route is_allowed Pattern.matches Codes.matches
handle_send-refused_example = handle_send-refused engine claim analyst [] refl refl

handle_send_get-refused_example :
    (engine.services.cached [] claim ≡ none
      → handle_send_get engine claim 5 [] ≡ (err (refusal claim analyst), []))
    × ((r : Message)
        → engine.services.cached [] claim ≡ some r
        → handle_send_get engine claim 5 [] ≡ (ok (some r), []))
unfolding can_route is_allowed Pattern.matches Codes.matches
handle_send_get-refused_example = handle_send_get-refused engine claim analyst 5 [] refl refl
