-- ===== src/Adapters/ResourceAddress.antt =====
-- ahp/adapters/tool_address.py: addresses of resources.
use agent_handshake_protocol.Prelude.{String, List, [], ◌∷◌}
use agent_handshake_protocol.Prelude.Exec.{Result, err}
use agent_handshake_protocol.Prelude.Text.{split, strip, join}
use agent_handshake_protocol.Core.Pattern.{AddressPattern, wildcard}
use agent_handshake_protocol.Adapters.ToolAddress.{
  FieldError, wrong_field_count, first_error, checked,
}

pub record ResourceAddress : Type 0 where
  pub scope : String
  pub kind : String
  pub domain : String
  pub subdomain : String
  pub name : String

abbrev pub fields : ResourceAddress → List String
fields r = r.scope ∷ r.kind ∷ r.domain ∷ r.subdomain ∷ r.name ∷ []

-- `ResourceAddress.__post_init__`
abbrev pub validate : ResourceAddress → Result FieldError ResourceAddress
validate r = checked r (first_error (fields r))

abbrev pub of_parts : List String → Result FieldError ResourceAddress
of_parts (a ∷ b ∷ c ∷ d ∷ e ∷ []) =
    validate (record { scope = a; kind = b; domain = c; subdomain = d; name = e })
of_parts _ = err wrong_field_count

-- `parse`
unfoldable pub parse : String → Result FieldError ResourceAddress
unfolding split strip first_error
parse uri = of_parts (split b'.' (strip uri))

-- `__str__`
unfoldable pub str : ResourceAddress → String
unfolding join
str r = join "." (fields r)

-- `derived_allowed_for`
abbrev pub derived_allowed_for : ResourceAddress → AddressPattern
derived_allowed_for r = record {
  org = r.scope;
  role = wildcard;
  domain = r.domain;
  subdomain = r.subdomain;
  accept = wildcard;
  lifecycle = wildcard;
  instance_name = wildcard;
}
