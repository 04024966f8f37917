-- ===== src/Core/Compatibility.antt =====
-- ahp/core/compatibility.py: which targets can receive a code.
pub mod Requirements
mod Families
mod Turns
unfoldable pub use Families.{family_requirements}
unfoldable pub use Turns.{turn_requirements}
use agent_handshake_protocol.Prelude.{String, Bool, none, some, List, ◌++◌, is_some}
use agent_handshake_protocol.Prelude.Dict.{Dict, lookup}
use agent_handshake_protocol.Prelude.Lists.{filter}
use agent_handshake_protocol.Prelude.Text.{intersects}
use agent_handshake_protocol.Core.Address.{AgentAddress}

-- CODE_REQUIREMENTS
unfoldable pub code_requirements : Dict String
unfolding family_requirements turn_requirements
code_requirements = family_requirements ++ turn_requirements

-- DEFAULT_REQUIREMENT
abbrev pub default_requirement : String
default_requirement = "s"

unfoldable pub required_tiers : String → String
unfolding code_requirements lookup
required_tiers code = elim (lookup code code_requirements) [
  | none ↦ default_requirement
  | some tiers ↦ tiers
]

unfoldable pub is_known : String → Bool
unfolding code_requirements lookup
is_known code = is_some (lookup code code_requirements)

-- `can_route`; the source is not read yet
unfoldable pub can_route : (source target : AgentAddress) (code : String) → Bool
unfolding required_tiers intersects
can_route source target code = intersects target.accept (required_tiers code)

unfoldable pub filter_targets :
    (source : AgentAddress) (targets : List AgentAddress) (code : String) → List AgentAddress
unfolding can_route filter
filter_targets source targets code = filter (λ t. can_route source t code) targets
