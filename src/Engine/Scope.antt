-- ===== src/Engine/Scope.antt =====
-- ahp/engine/scope.py: access rules from addresses to addresses, open by default.
pub mod Policy
use agent_handshake_protocol.Prelude.{String, Bool, true, ◌&&◌, List, [], ◌∷◌, ◌++◌}
use agent_handshake_protocol.Prelude.Lists.{filter, any}
use agent_handshake_protocol.Core.Address.{AgentAddress}
use agent_handshake_protocol.Core.Pattern.{AddressPattern}
use agent_handshake_protocol.Core.Pattern
use agent_handshake_protocol.Core.Codes

pub record ScopeRule : Type 0 where
  pub target : AddressPattern
  pub allow_sources : AddressPattern
  pub code : String
  pub description : String

-- the rules, in the order of their registration
abbrev pub ScopePolicy : Type 0
ScopePolicy = List ScopeRule

-- `restrict`, on patterns that are parsed
unfoldable pub restrict : ScopeRule → ScopePolicy → ScopePolicy
restrict rule rules = rules ++ (rule ∷ [])

-- `clear`
abbrev pub clear : ScopePolicy → ScopePolicy
clear rules = []

-- the test of a rule in the comprehension of `is_allowed`
abbrev pub covers : (target : AgentAddress) (code : String) → ScopeRule → Bool
covers target code rule = Pattern.matches rule.target target && Codes.matches code rule.code

abbrev pub allows : (source : AgentAddress) → ScopeRule → Bool
allows source rule = Pattern.matches rule.allow_sources source

unfoldable pub is_allowed : ScopePolicy → (source target : AgentAddress) (code : String) → Bool
unfolding filter any
is_allowed rules source target code = elim (filter (covers target code) rules) [
  | [] ↦ true
  | rule ∷ covering ↦ any (allows source) (rule ∷ covering)
]

-- `filter_targets`
unfoldable pub filter_targets :
    ScopePolicy
    → (source : AgentAddress) (targets : List AgentAddress) (code : String) → List AgentAddress
unfolding is_allowed filter
filter_targets rules source targets code = filter (λ t. is_allowed rules source t code) targets
