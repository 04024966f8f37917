-- ===== src/Tests/Registry.antt =====
-- The registry at concrete inputs.
use agent_handshake_protocol.Prelude.{
  ◌≡◌, refl, true, false, ◌&&◌, ◌==◌, none, some, [], ◌∷◌, ltb, if◌then◌else◌,
}
use agent_handshake_protocol.Prelude.Exec.{err}
use agent_handshake_protocol.Prelude.Lists.{filter, any}
use agent_handshake_protocol.Core.Address.{AgentAddress}
use agent_handshake_protocol.Core.Address.Text.{str, quote}
use agent_handshake_protocol.Core.Pattern
use agent_handshake_protocol.Engine.Message.{Message, pattern}
use agent_handshake_protocol.Engine.Dispatch.{resolve_for_broadcast}
use agent_handshake_protocol.Engine.Dispatch.Gates.{reachable}
use agent_handshake_protocol.Engine.Dispatch.Registered.{over_registry, broadcast_registered}
use agent_handshake_protocol.Registry.Auth.{address_claims, can_register}
use agent_handshake_protocol.Registry.Store.{
  AgentMeta, Store, AgentRegistry, unauthorized_registration, is_alive, get, register, hide,
  deregister, heartbeat, list_all, new_meta,
}
use agent_handshake_protocol.Registry.Store.Lifecycle.{later, lifecycle_alive}
use agent_handshake_protocol.Registry.Store.Access.{SameShelf, unauthorized_changes_nothing}
use agent_handshake_protocol.Tests.Core.{analyst, operator, finance}
use agent_handshake_protocol.Tests.Engine.{claim, engine}

-- the analyst is registered, and was alive until 30
abbrev pub store : Store
store = record {
  entries = ("tifin.analyst.finance.risk.sj.session.a1", (analyst, new_meta 3)) ∷ [];
  markers = ("ahp:alive:tifin.analyst.finance.risk.sj.session.a1", 33) ∷ [];
  clock = 20;
  events = [];
}

-- a principal that may act on analysts
abbrev pub registry : AgentRegistry
registry = record {
  heartbeat_ttl = 30;
  principal =
      some (record {
        id = "node-a";
        claims = record finance { role = "analyst" } ∷ [];
        metadata = [];
      });
  policy = address_claims;
  audit = true;
}

-- percent-encoding
quote_text : quote "a b/é" ≡ "a%20b%2F%C3%A9"
unfolding quote
quote_text = refl

lifecycle_alive_example :
    let set =
      (if str analyst == str operator then ltb 40 30 else is_alive operator (later 40 store)) in
    let unset =
      (if str analyst == str operator then false else is_alive operator (later 40 store)) in
    (is_alive operator (later 40 (register registry analyst none true store).1) ≡ set)
    × (is_alive operator (later 40 (deregister registry analyst store).1) ≡ unset)
    × ((e : AgentAddress × AgentMeta)
        → get analyst store ≡ some e
        → (is_alive operator (later 40 (heartbeat registry analyst store).1) ≡ set)
          × (is_alive operator (later 40 (hide registry analyst store).1) ≡ unset))
unfolding can_register any Pattern.matches
lifecycle_alive_example = lifecycle_alive registry analyst operator 40 store none refl

unauthorized_changes_nothing_example :
    ((register registry operator none true store).0 ≡ err unauthorized_registration)
    × ((hide registry operator store).0 ≡ err unauthorized_registration)
    × ((deregister registry operator store).0 ≡ err unauthorized_registration)
    × ((heartbeat registry operator store).0 ≡ err unauthorized_registration)
    × SameShelf store (register registry operator none true store).1
    × SameShelf store (hide registry operator store).1
    × SameShelf store (deregister registry operator store).1
    × SameShelf store (heartbeat registry operator store).1
unfolding can_register any Pattern.matches
unauthorized_changes_nothing_example =
    unauthorized_changes_nothing registry operator store none true refl

abbrev pub claim_to_all : Message
claim_to_all = record claim { target = pattern finance }

broadcast_registered_example :
    resolve_for_broadcast (over_registry (λ t. store) engine) claim_to_all []
    ≡ filter
        (λ a. (is_alive a store && Pattern.matches finance a) && reachable engine claim_to_all a)
        (list_all false store)
broadcast_registered_example = broadcast_registered (λ t. store) engine claim_to_all finance [] refl
