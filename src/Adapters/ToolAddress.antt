-- ===== src/Adapters/ToolAddress.antt =====
-- ahp/adapters/tool_address.py: the checks of a field, and addresses of tools.
use agent_handshake_protocol.Prelude.{String, Option, none, some, List, [], ◌∷◌, if◌then◌else◌}
use agent_handshake_protocol.Prelude.Exec.{Result, ok, err}
use agent_handshake_protocol.Prelude.Lists.{any}
use agent_handshake_protocol.Prelude.Text.{has, is_empty, split, strip, join}
use agent_handshake_protocol.Core.Pattern.{AddressPattern, wildcard}

pub data FieldError : Type 0 where
  empty_field forbidden_character wrong_field_count : FieldError

-- `_validate_field`
unfoldable pub validate_field : String → Option FieldError
unfolding has is_empty any
validate_field value =
    if is_empty value
    then some empty_field
    else if any (λ c. has c value) (b'.' ∷ b'?' ∷ b' ' ∷ 9 ∷ 10 ∷ [])
    then some forbidden_character
    else none

-- the loop of `__post_init__`
unfoldable pub first_error : List String → Option FieldError
unfolding validate_field
first_error [] = none
first_error (value ∷ rest) = elim (validate_field value) [
  | some e ↦ some e
  | none ↦ first_error rest
]

pub record ToolAddress : Type 0 where
  pub scope : String
  pub kind : String
  pub role : String
  pub category : String
  pub operation : String

-- a value whose fields pass, or the error of the first that does not
abbrev pub checked {ℓ} : {A : Type ℓ} → A → Option FieldError → Result FieldError A
checked a none = ok a
checked a (some e) = err e

abbrev pub fields : ToolAddress → List String
fields t = t.scope ∷ t.kind ∷ t.role ∷ t.category ∷ t.operation ∷ []

-- `ToolAddress.__post_init__`
abbrev pub validate : ToolAddress → Result FieldError ToolAddress
validate t = checked t (first_error (fields t))

-- `cls(*parts)`, once there are five parts
abbrev pub of_parts : List String → Result FieldError ToolAddress
of_parts (a ∷ b ∷ c ∷ d ∷ e ∷ []) =
    validate (record { scope = a; kind = b; role = c; category = d; operation = e })
of_parts _ = err wrong_field_count

-- `parse`
unfoldable pub parse : String → Result FieldError ToolAddress
unfolding split strip first_error
parse uri = of_parts (split b'.' (strip uri))

-- `__str__`
unfoldable pub str : ToolAddress → String
unfolding join
str t = join "." (fields t)

-- `derived_allowed_for`
abbrev pub derived_allowed_for : ToolAddress → AddressPattern
derived_allowed_for t = record {
  org = t.scope;
  role = t.role;
  domain = wildcard;
  subdomain = wildcard;
  accept = wildcard;
  lifecycle = wildcard;
  instance_name = wildcard;
}
