-- ===== src/Registry/Auth.antt =====
-- ahp/registry/auth.py: principals, their claims and the policies.
use agent_handshake_protocol.Prelude.{String, Bool, true, false, Option, none, some, List}
use agent_handshake_protocol.Prelude.Lists.{any}
use agent_handshake_protocol.Prelude.Dict.{Dict}
use agent_handshake_protocol.Core.Address.{AgentAddress}
use agent_handshake_protocol.Core.Pattern.{AddressPattern}
use agent_handshake_protocol.Core.Pattern

pub record Principal : Type 0 where
  pub id : String
  pub claims : List AddressPattern
  pub metadata : Dict String

-- `Principal.covers`
unfoldable pub covers : Principal → AgentAddress → Bool
unfolding any
covers p address = any (λ pat. Pattern.matches pat address) p.claims

-- OpenAuthPolicy, AddressClaimPolicy and DenyAllPolicy
pub data AuthPolicy : Type 0 where
  open_auth address_claims deny_all : AuthPolicy

unfoldable pub can_register : AuthPolicy → Option Principal → AgentAddress → Bool
unfolding covers
can_register open_auth principal address = true
can_register address_claims none address = false
can_register address_claims (some p) address = covers p address
can_register deny_all principal address = false

-- `can_deregister` and `can_heartbeat`, which no policy overrides
abbrev pub can_deregister : AuthPolicy → Option Principal → AgentAddress → Bool
can_deregister = can_register

abbrev pub can_heartbeat : AuthPolicy → Option Principal → AgentAddress → Bool
can_heartbeat = can_register
