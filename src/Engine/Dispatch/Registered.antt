-- ===== src/Engine/Dispatch/Registered.antt =====
-- The engine over the registry: its interface filled by the registry's model.
use agent_handshake_protocol.Prelude.{◌≡◌, ap, ◌∙◌, true, false, ◌&&◌}
use agent_handshake_protocol.Prelude.Lists.{filter}
use agent_handshake_protocol.Core.Pattern.{AddressPattern}
use agent_handshake_protocol.Core.Pattern
use agent_handshake_protocol.Engine.Message.{Message, pattern}
use agent_handshake_protocol.Engine.Services.{ProtocolEngine, Trace}
use agent_handshake_protocol.Engine.Dispatch.{resolve_for_broadcast}
use agent_handshake_protocol.Engine.Dispatch.Gates.{
  reachable, named_by, resolve_for_broadcast_lem, filter-filter,
}
use agent_handshake_protocol.Registry.Store.{Store, is_alive, resolve, list_all}
use agent_handshake_protocol.Registry.Store.Access.{resolve_lem}

-- an engine that asks the registry, whose store depends on what has been done
abbrev pub over_registry : (Trace → Store) → ProtocolEngine → ProtocolEngine
over_registry store e = record e {
  services = record e.services {
    is_alive = λ t a. is_alive a (store t);
    resolve = λ t p. resolve p true (store t);
  };
}

-- Over the registry, a broadcast to a pattern goes to exactly the registered agents that are alive,
-- match the pattern, and may be reached by the code and the policy.
pub broadcast_registered :
    (store : Trace → Store) (e : ProtocolEngine) (m : Message) (p : AddressPattern) (t : Trace)
    → m.target ≡ pattern p
    → resolve_for_broadcast (over_registry store e) m t
      ≡ filter
          (λ a. (is_alive a (store t) && Pattern.matches p a) && reachable e m a)
          (list_all false (store t))
broadcast_registered store e m p t many =
    resolve_for_broadcast_lem (over_registry store e) m t
    ∙ ap (λ g. filter (reachable e m) (named_by (over_registry store e) g t)) many
    ∙ ap (filter (reachable e m)) (resolve_lem p true (store t))
    ∙ filter-filter (λ a. is_alive a (store t) && Pattern.matches p a) (reachable e m)
        (list_all false (store t))
