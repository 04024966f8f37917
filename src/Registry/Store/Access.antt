-- ===== src/Registry/Store/Access.antt =====
-- Who may change the registry, and what is found in it.
use agent_handshake_protocol.Prelude.{
  String, ◌≡◌, refl, ap, sym, ◌∙◌, inl, inr, Bool, true, false, not, ◌&&◌, ◌||◌, Option, [], ◌∷◌,
  Bool-cases,
}
use agent_handshake_protocol.Prelude.Exec.{err}
use agent_handshake_protocol.Prelude.Dict.{Dict}
use agent_handshake_protocol.Prelude.Lists.{filter}
use agent_handshake_protocol.Core.Address.{AgentAddress}
use agent_handshake_protocol.Core.Pattern.{AddressPattern}
use agent_handshake_protocol.Core.Pattern
use agent_handshake_protocol.Registry.Auth.{can_register}
use agent_handshake_protocol.Registry.Store.{
  AgentMeta, Store, AgentRegistry, unauthorized_registration, is_alive, register, hide, deregister,
  heartbeat, scan, resolve, list_all, addresses, guard,
}

-- What a registry shows is what it showed.
abbrev pub SameShelf : Store → Store → Type 0
SameShelf s t = (t.entries ≡ s.entries) × (t.markers ≡ s.markers) × (t.clock ≡ s.clock)

guard_barred :
    (r : AgentRegistry) (op : String) (a : AgentAddress) (s : Store)
    → SameShelf s (guard r false op a s).1
guard_barred r op a s = elim (Bool-cases r.audit) [
  | inl audited ↦ rw audited (refl, refl, refl)
  | inr silent ↦ rw silent (refl, refl, refl)
]

-- A principal whom the policy does not let act on an address gets an error from all four operations,
-- and changes neither the records nor the markers.
pub unauthorized_changes_nothing :
    (r : AgentRegistry) (a : AgentAddress) (s : Store) (meta : Option AgentMeta) (alive : Bool)
    → can_register r.policy r.principal a ≡ false
    → ((register r a meta alive s).0 ≡ err unauthorized_registration)
      × ((hide r a s).0 ≡ err unauthorized_registration)
      × ((deregister r a s).0 ≡ err unauthorized_registration)
      × ((heartbeat r a s).0 ≡ err unauthorized_registration)
      × SameShelf s (register r a meta alive s).1
      × SameShelf s (hide r a s).1
      × SameShelf s (deregister r a s).1
      × SameShelf s (heartbeat r a s).1
unfolding register hide deregister heartbeat
unauthorized_changes_nothing r a s meta alive barred = (
  rw barred refl,
  rw barred refl,
  rw barred refl,
  rw barred refl,
  rw barred (guard_barred r "registry.register" a s),
  rw barred (guard_barred r "registry.hide" a s),
  rw barred (guard_barred r "registry.deregister" a s),
  rw barred (guard_barred r "registry.heartbeat" a s),
)

filter-addresses :
    (p q : AgentAddress → Bool) (d : Dict (AgentAddress × AgentMeta))
    → filter q (addresses (filter (λ entry. p entry.1.0) d))
      ≡ filter (λ a. p a && q a) (addresses d)
unfolding filter
filter-addresses p q [] = refl
filter-addresses p q ((k, (a, m)) ∷ d) = elim (Bool-cases (p a)) [
  | inl e ↦ rw (e, ← filter-addresses p q d) refl
  | inr e ↦ rw e (filter-addresses p q d)
]

addresses_all :
    (d : Dict (AgentAddress × AgentMeta)) → addresses (filter (λ _. true) d) ≡ addresses d
unfolding filter
addresses_all [] = refl
addresses_all ((k, (a, m)) ∷ d) = ap (λ l. a ∷ l) (addresses_all d)

-- A pattern resolves to the registered agents that it matches, in the order of their registration,
-- and if only live agents are asked for, to those among them whose marker has not expired.
pub resolve_lem :
    (p : AddressPattern) (alive_only : Bool) (s : Store)
    → resolve p alive_only s
      ≡ filter (λ a. (not alive_only || is_alive a s) && Pattern.matches p a) (list_all false s)
unfolding resolve list_all scan
resolve_lem p alive_only s =
    filter-addresses (λ a. not alive_only || is_alive a s) (Pattern.matches p) s.entries
    ∙ ap (filter (λ a. (not alive_only || is_alive a s) && Pattern.matches p a))
        (sym (addresses_all s.entries))
