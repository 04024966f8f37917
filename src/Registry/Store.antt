-- ===== src/Registry/Store.antt =====
-- ahp/registry/registry.py: `AgentRegistry` over the hash of the registered agents and the markers
-- of the live ones, which expire. An entry keeps beside its metadata the address that its key's text
-- parses to. A reputation is a whole number of millionths.
pub mod Lifecycle
pub mod Access
use Prim.Native.String.{◌++◌}
use agent_handshake_protocol.Prelude.{
  ℕ, ◌+◌, String, Bool, true, false, not, ◌&&◌, ◌||◌, Option, none, some, List, [], ◌∷◌, ltb,
  is_some, if◌then◌else◌,
}
use agent_handshake_protocol.Prelude.Int.{ℤ, pos, ◌+ℤ◌, max_ℤ, min_ℤ, ltb_ℤ}
use agent_handshake_protocol.Prelude.Exec.{Exec, Result, ok, err, pure, lift, read, ◌>>=◌, ◌>>◌}
use agent_handshake_protocol.Prelude.Dict.{Dict, lookup, insert, erase}
use agent_handshake_protocol.Prelude.Lists.{filter, contains, length}
use agent_handshake_protocol.Core.Address.{AgentAddress}
use agent_handshake_protocol.Core.Address.Text.{str}
use agent_handshake_protocol.Core.Pattern.{AddressPattern}
use agent_handshake_protocol.Core.Pattern
use agent_handshake_protocol.Registry.Auth.{
  Principal, AuthPolicy, can_register, can_deregister, can_heartbeat,
}

pub record AgentMeta : Type 0 where
  pub capabilities : List String
  pub reputation : ℤ
  pub health_endpoint : Option String
  pub description : Option String
  pub extra : Dict String
  pub registered_at : ℕ

-- `AgentMeta()`, written at a time
abbrev pub new_meta : ℕ → AgentMeta
new_meta now = record {
  capabilities = [];
  reputation = pos 0;
  health_endpoint = none;
  description = none;
  extra = [];
  registered_at = now;
}

-- the keys of this component; a marker holds the time at which it expires
pub record Store : Type 0 where
  pub entries : Dict (AgentAddress × AgentMeta)
  pub markers : Dict ℕ
  pub clock : ℕ
  pub events : List (String × String × Option String)

pub data RegistryError : Type 0 where
  unauthorized_registration : RegistryError

abbrev pub Op : Type 0 → Type 0
Op A = Exec Store RegistryError A

-- `AgentRegistry.__init__`
pub record AgentRegistry : Type 0 where
  pub heartbeat_ttl : ℕ
  pub principal : Option Principal
  pub policy : AuthPolicy
  pub audit : Bool

-- DEFAULT_HEARTBEAT_TTL
abbrev pub default_heartbeat_ttl : ℕ
default_heartbeat_ttl = 30

unfoldable pub alive_key : AgentAddress → String
alive_key address = "ahp:alive:" ++ str address

-- `exists`: a marker that has expired is gone
abbrev pub fresh : ℕ → Option ℕ → Bool
fresh now none = false
fresh now (some expiry) = ltb now expiry

unfoldable pub is_alive : AgentAddress → Store → Bool
unfolding lookup
is_alive address s = fresh s.clock (lookup (alive_key address) s.markers)

-- `get`
unfoldable pub get : AgentAddress → Store → Option (AgentAddress × AgentMeta)
unfolding lookup
get address s = lookup (str address) s.entries

-- `_scan`
unfoldable pub scan : (alive_only : Bool) → Store → Dict (AgentAddress × AgentMeta)
unfolding is_alive filter
scan alive_only s = filter (λ entry. not alive_only || is_alive entry.1.0 s) s.entries

abbrev pub addresses : Dict (AgentAddress × AgentMeta) → List AgentAddress
addresses [] = []
addresses ((_, (a, _)) ∷ d) = a ∷ addresses d

-- `resolve`
unfoldable pub resolve : AddressPattern → (alive_only : Bool) → Store → List AgentAddress
unfolding scan filter
resolve pattern alive_only s =
    filter (λ a. Pattern.matches pattern a) (addresses (scan alive_only s))

-- the tests of `discover` after the pattern
abbrev pub qualifies : (min_reputation : ℤ) (capability : Option String) → AgentMeta → Bool
qualifies min_reputation capability meta =
    not (ltb_ℤ meta.reputation min_reputation)
    && (elim capability [ none ↦ true | some c ↦ contains c meta.capabilities ])

-- `discover`, on the pattern of its seven fields
unfoldable pub discover :
    AddressPattern
    → (min_reputation : ℤ) (capability : Option String) (alive_only : Bool) → Store
    → Dict (AgentAddress × AgentMeta)
unfolding scan filter contains
discover pattern min_reputation capability alive_only s =
    filter
      (λ entry. Pattern.matches pattern entry.1.0 && qualifies min_reputation capability entry.1.1)
      (scan alive_only s)

-- `list_all`
unfoldable pub list_all : (alive_only : Bool) → Store → List AgentAddress
unfolding scan
list_all alive_only s = addresses (scan alive_only s)

-- `count`
unfoldable pub count : (alive_only : Bool) → Store → ℕ
unfolding scan
count alive_only s = if alive_only then length (scan true s) else length s.entries

module _ (r : AgentRegistry) where
  -- `_emit`
  abbrev pub emit : String → AgentAddress → (error : Option String) → Op (Unit {0})
  emit op address error s = elim r.audit [
    | false ↦ (ok tt, s)
    | true ↦ (ok tt, record s { events = (op, str address, error) ∷ s.events })
  ]

  -- `_mark_alive`
  abbrev pub mark_alive : AgentAddress → Op (Unit {0})
  mark_alive address s = (
    ok tt,
    record s { markers = insert (alive_key address) (s.clock + r.heartbeat_ttl) s.markers },
  )

  -- `if not self._policy.can_...: emit; raise`
  abbrev pub guard : Bool → String → AgentAddress → Op (Unit {0})
  guard true op address s = (ok tt, s)
  guard false op address s =
      (err unauthorized_registration, (emit op address (some "UnauthorizedRegistrationError") s).1)

  abbrev pub write : AgentAddress → AgentMeta → Op (Unit {0})
  write address meta s =
      (ok tt, record s { entries = insert (str address) (address, meta) s.entries })

  abbrev pub unmark : AgentAddress → Op (Unit {0})
  unmark address s = (ok tt, record s { markers = erase (alive_key address) s.markers })

  abbrev pub forget : AgentAddress → Op (Unit {0})
  forget address s = (ok tt, record s { entries = erase (str address) s.entries })

  unfoldable pub register : AgentAddress → Option AgentMeta → (alive : Bool) → Op (Unit {0})
  register address metadata alive = do
    guard (can_register r.policy r.principal address) "registry.register" address
    now ← read (λ s. s.clock)
    write address (elim metadata [ none ↦ new_meta now | some meta ↦ meta ])
    (if alive then mark_alive address else pure tt)
    emit "registry.register" address none

  unfoldable pub hide : AgentAddress → Op Bool
  hide address = do
    guard (can_deregister r.policy r.principal address) "registry.hide" address
    entry ← read (get address)
    elim entry [
      | none ↦ do emit "registry.hide" address (some "NotRegistered"); pure false
      | some _ ↦ do unmark address; emit "registry.hide" address none; pure true
    ]

  unfoldable pub deregister : AgentAddress → Op (Unit {0})
  deregister address = do
    guard (can_deregister r.policy r.principal address) "registry.deregister" address
    forget address
    unmark address
    emit "registry.deregister" address none

  unfoldable pub heartbeat : AgentAddress → Op Bool
  heartbeat address = do
    guard (can_heartbeat r.policy r.principal address) "registry.heartbeat" address
    entry ← read (get address)
    elim entry [
      | none ↦ do emit "registry.heartbeat" address (some "NotRegistered"); pure false
      | some _ ↦ do mark_alive address; emit "registry.heartbeat" address none; pure true
    ]
