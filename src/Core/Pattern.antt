-- ===== src/Core/Pattern.antt =====
-- ahp/core/pattern.py: seven-field patterns with wildcards.
pub mod Generality
pub mod RoundTrip
use Prim.Native.String.{String}
use agent_handshake_protocol.Prelude.{
  Bool, true, false, not, ◌==◌, ◌||◌, ◌&&◌, List, [], ◌∷◌, if◌then◌else◌,
}
use agent_handshake_protocol.Prelude.Exec.{Result, ok, err}
use agent_handshake_protocol.Prelude.Lists.{any}
use agent_handshake_protocol.Prelude.Text.{has, is_empty, subset, split, join, strip}
use agent_handshake_protocol.Core.Address.{AgentAddress}

-- WILDCARD
abbrev pub wildcard : String
wildcard = "*"

pub record AddressPattern : Type 0 where
  pub org : String
  pub role : String
  pub domain : String
  pub subdomain : String
  pub accept : String
  pub lifecycle : String
  pub instance_name : String

pub data PatternError : Type 0 where
  empty_field forbidden_character carries_params wrong_field_count : PatternError

-- the property `fields`
abbrev pub fields : AddressPattern → List String
fields p = p.org ∷ p.role ∷ p.domain ∷ p.subdomain ∷ p.accept ∷ p.lifecycle ∷ p.instance_name ∷ []

-- the checks of one field in `__post_init__`
abbrev pub field_error : String → Bool
field_error value = has b'.' value || has b'?' value

-- the loop of `__post_init__`
unfoldable pub check_fields : AddressPattern → List String → Result PatternError AddressPattern
unfolding is_empty has
check_fields p [] = ok p
check_fields p (value ∷ rest) =
    let others = check_fields p rest in
    if is_empty value
    then err empty_field
    else if field_error value
    then err forbidden_character
    else others

unfoldable pub validate : AddressPattern → Result PatternError AddressPattern
unfolding check_fields
validate p = check_fields p (fields p)

-- `cls(*parts)`, once there are seven parts
unfoldable pub of_parts : List String → Result PatternError AddressPattern
unfolding validate
of_parts (a ∷ b ∷ c ∷ d ∷ e ∷ f ∷ g ∷ []) = validate (record {
  org = a;
  role = b;
  domain = c;
  subdomain = d;
  accept = e;
  lifecycle = f;
  instance_name = g;
})
of_parts _ = err wrong_field_count

unfoldable pub parse : String → Result PatternError AddressPattern
unfolding of_parts strip split has
parse text =
    let pattern = strip text in
    if has b'?' pattern then err carries_params else of_parts (split b'.' pattern)

-- `__str__`
unfoldable pub str : AddressPattern → String
unfolding join
str p = join "." (fields p)

-- `AddressPattern.all`
abbrev pub all_wild : AddressPattern
all_wild = record {
  org = wildcard;
  role = wildcard;
  domain = wildcard;
  subdomain = wildcard;
  accept = wildcard;
  lifecycle = wildcard;
  instance_name = wildcard;
}

-- one structural field
abbrev pub field_matches : String → String → Bool
field_matches pat value = pat == wildcard || pat == value

-- `matches`
unfoldable pub matches : AddressPattern → AgentAddress → Bool
unfolding subset
matches p a =
    if not (field_matches p.org a.org)
    then false
    else if not (field_matches p.role a.role)
    then false
    else if not (field_matches p.domain a.domain)
    then false
    else if not (field_matches p.subdomain a.subdomain)
    then false
    else if not (field_matches p.lifecycle a.lifecycle)
    then false
    else if not (field_matches p.instance_name a.instance_name)
    then false
    else p.accept == wildcard || subset p.accept a.accept

-- `matches_accept`
unfoldable pub matches_accept : String → String → Bool
unfolding subset
matches_accept sender_accept receiver_accept = subset sender_accept receiver_accept
