-- ===== src/Registry/Store/Lifecycle.antt =====
-- What the four operations of the registry do to every agent, and how long it lasts.
use text.Mathlib.TextLemmas.{append_cancel_left}
use agent_handshake_protocol.Prelude.{
  ℕ, ◌+◌, ◌≡◌, refl, inl, inr, true, false, ◌==◌, Option, some, arith, eq_iff, Bool-cases, ltb,
  if◌then◌else◌,
}
use agent_handshake_protocol.Prelude.Dict.{insert, erase, lookup-insert, lookup-erase}
use agent_handshake_protocol.Core.Address.{AgentAddress}
use agent_handshake_protocol.Core.Address.Text.{str}
use agent_handshake_protocol.Registry.Auth.{can_register}
use agent_handshake_protocol.Registry.Store.{
  AgentMeta, Store, AgentRegistry, alive_key, is_alive, get, register, hide, deregister, heartbeat,
}

alive_key_eq : (a b : AgentAddress) → (alive_key a == alive_key b) ≡ (str a == str b)
unfolding alive_key
alive_key_eq a b = ground (
  arith,
  eq_iff (alive_key a) (alive_key b),
  eq_iff (str a) (str b),
  append_cancel_left "ahp:alive:" (str a) (str b),
)

-- some seconds later
abbrev pub later : ℕ → Store → Store
later d s = record s { clock = s.clock + d }

lapse : (n d t : ℕ) → ltb (n + d) (n + t) ≡ ltb d t
lapse n d t = ground arith

-- the markers after one is set, and after one is removed
marked :
    (a b : AgentAddress) (d t : ℕ) (s : Store)
    → is_alive b (later d (record s { markers = insert (alive_key a) (s.clock + t) s.markers }))
      ≡ (if str a == str b then ltb d t else is_alive b (later d s))
unfolding is_alive
marked a b d t s =
    rw (lookup-insert, alive_key_eq)
      (elim (Bool-cases (str a == str b)) [
        | inl same ↦ rw same (lapse s.clock d t)
        | inr other ↦ rw other refl
      ])

unmarked :
    (a b : AgentAddress) (d : ℕ) (s : Store)
    → is_alive b (later d (record s { markers = erase (alive_key a) s.markers }))
      ≡ (if str a == str b then false else is_alive b (later d s))
unfolding is_alive
unmarked a b d s =
    rw (lookup-erase, alive_key_eq)
      (elim (Bool-cases (str a == str b)) [ inl same ↦ rw same refl | inr other ↦ rw other refl ])

module _ (r : AgentRegistry) (a b : AgentAddress) (d : ℕ) (s : Store) where
  register_alive :
      (meta : Option AgentMeta)
      → can_register r.policy r.principal a ≡ true
      → is_alive b (later d (register r a meta true s).1)
        ≡ (if str a == str b then ltb d r.heartbeat_ttl else is_alive b (later d s))
  unfolding register is_alive
  register_alive meta allowed = rw allowed (elim (Bool-cases r.audit) [
    | inl audited ↦ rw audited (marked a b d r.heartbeat_ttl s)
    | inr silent ↦ rw silent (marked a b d r.heartbeat_ttl s)
  ])

  hide_alive :
      {e : AgentAddress × AgentMeta}
      → can_register r.policy r.principal a ≡ true
      → get a s ≡ some e
      → is_alive b (later d (hide r a s).1)
        ≡ (if str a == str b then false else is_alive b (later d s))
  unfolding hide is_alive get str
  hide_alive allowed known = rw allowed (
      rw known (elim (Bool-cases r.audit) [
        | inl audited ↦ rw audited (unmarked a b d s)
        | inr silent ↦ rw silent (unmarked a b d s)
      ]))

  deregister_alive :
      can_register r.policy r.principal a ≡ true
      → is_alive b (later d (deregister r a s).1)
        ≡ (if str a == str b then false else is_alive b (later d s))
  unfolding deregister is_alive
  deregister_alive allowed = rw allowed (elim (Bool-cases r.audit) [
    | inl audited ↦ rw audited (unmarked a b d s)
    | inr silent ↦ rw silent (unmarked a b d s)
  ])

  heartbeat_alive :
      {e : AgentAddress × AgentMeta}
      → can_register r.policy r.principal a ≡ true
      → get a s ≡ some e
      → is_alive b (later d (heartbeat r a s).1)
        ≡ (if str a == str b then ltb d r.heartbeat_ttl else is_alive b (later d s))
  unfolding heartbeat is_alive get str
  heartbeat_alive allowed known = rw allowed (
      rw known (elim (Bool-cases r.audit) [
        | inl audited ↦ rw audited (marked a b d r.heartbeat_ttl s)
        | inr silent ↦ rw silent (marked a b d r.heartbeat_ttl s)
      ]))

-- For a principal whom the policy lets act on an address: a registration that marks the agent alive,
-- and the heartbeat of a registered agent, keep it alive for the time of the marker and no longer;
-- hiding a registered agent and deregistering any end its life at once. No other agent is touched.
pub lifecycle_alive :
    (r : AgentRegistry) (a b : AgentAddress) (d : ℕ) (s : Store) (meta : Option AgentMeta)
    → can_register r.policy r.principal a ≡ true
    → let set = (if str a == str b then ltb d r.heartbeat_ttl else is_alive b (later d s)) in
      let unset = (if str a == str b then false else is_alive b (later d s)) in
      (is_alive b (later d (register r a meta true s).1) ≡ set)
      × (is_alive b (later d (deregister r a s).1) ≡ unset)
      × ((e : AgentAddress × AgentMeta)
          → get a s ≡ some e
          → (is_alive b (later d (heartbeat r a s).1) ≡ set)
            × (is_alive b (later d (hide r a s).1) ≡ unset))
lifecycle_alive r a b d s meta allowed = (
  register_alive r a b d s meta allowed,
  deregister_alive r a b d s allowed,
  λ e known. (heartbeat_alive r a b d s allowed known, hide_alive r a b d s allowed known),
)
