-- ===== src/Adapters/Access.antt =====
-- Addresses of tools and resources: printing and parsing them, and who may use them.
use agent_handshake_protocol.Prelude.{
  String, ◌≡◌, refl, false, ◌&&◌, Option, none, some, List, [], ◌∷◌, arith,
}
use agent_handshake_protocol.Prelude.Exec.{ok}
use agent_handshake_protocol.Prelude.Lists.{All, any}
use agent_handshake_protocol.Prelude.Text.{has, has_space, is_space}
use agent_handshake_protocol.Prelude.Text.Split.{split-join, has_space-join, strip-no_space}
use agent_handshake_protocol.Core.Address.{AgentAddress}
use agent_handshake_protocol.Core.Pattern.{AddressPattern, wildcard, field_matches}
use agent_handshake_protocol.Core.Pattern
use agent_handshake_protocol.Adapters.ToolAddress.{
  ToolAddress, FieldError, validate_field, first_error, checked,
}
use agent_handshake_protocol.Adapters.ToolAddress
use agent_handshake_protocol.Adapters.ResourceAddress
use agent_handshake_protocol.Adapters.ResourceAddress.{ResourceAddress}

no_dot : (l : List String) → first_error l ≡ none → All (λ s. has b'.' s ≡ false) l
unfolding first_error validate_field any
no_dot [] h = tt
no_dot (s ∷ l) h = ground (arith, no_dot l)

checked-ok : {A : Type 0} (a : A) (e : Option FieldError) → checked a e ≡ ok a → e ≡ none
checked-ok a none h = refl
checked-ok a (some e) h = absurd (cc)

dot_no_space : has_space "." ≡ false
unfolding has_space is_space
dot_no_space = refl

-- A valid address of a tool whose fields hold no white space is what its text parses to.
pub tool_parse-str :
    (t : ToolAddress)
    → ToolAddress.validate t ≡ ok t
    → All (λ s. has_space s ≡ false) (ToolAddress.fields t)
    → ToolAddress.parse (ToolAddress.str t) ≡ ok t
unfolding ToolAddress.parse ToolAddress.str
tool_parse-str t v h =
    let dots = no_dot (ToolAddress.fields t) (checked-ok t _ v) in
    let bare =
      strip-no_space (ToolAddress.str t)
        (has_space-join "." (ToolAddress.fields t) dot_no_space h) in
    rw
      (bare, split-join "." t.scope (t.kind ∷ t.role ∷ t.category ∷ t.operation ∷ []) dots.0 dots.1)
      v

-- By convention a tool may be used by the agents of its scope and its role, and a resource by those
-- of its scope, domain and subdomain, where a wildcard stands for any.
pub derived_allowed_for-matches :
    (t : ToolAddress) (r : ResourceAddress) (a : AgentAddress)
    → (Pattern.matches (ToolAddress.derived_allowed_for t) a
        ≡ (field_matches t.scope a.org && field_matches t.role a.role))
      × (Pattern.matches (ResourceAddress.derived_allowed_for r) a ≡ (
          field_matches r.scope a.org
          && (field_matches r.domain a.domain && field_matches r.subdomain a.subdomain)))
unfolding Pattern.matches
derived_allowed_for-matches t r a = (ground arith, ground arith)
