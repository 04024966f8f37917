-- ===== src/Core/Address.antt =====
-- ahp/core/address.py: agent addresses, their validation and their accept tiers. The seven
-- structural fields are modelled here, the text of an address in Text; parsing is not modelled.
pub mod Text
use Prim.Native.Char.{Char, code}
use Prim.Native.String.{String}
use agent_handshake_protocol.Prelude.{
  ℕ, Bool, false, not, ◌==◌, ◌||◌, Option, none, some, List, [], ◌∷◌, nat_beq, leb, if◌then◌else◌,
}
use agent_handshake_protocol.Prelude.Exec.{Result, ok, err}
use agent_handshake_protocol.Prelude.Dict.{Dict}
use agent_handshake_protocol.Prelude.Lists.{contains, any}
use agent_handshake_protocol.Prelude.Text.{has, is_empty, subset, intersects, one}

-- ACCEPT_TIER_ORDER
abbrev pub accept_tier_order : String
accept_tier_order = "sjbe"

-- _ACCEPT_RANK, on the characters of ACCEPT_TIER_ORDER
unfoldable pub accept_rank : ℕ → ℕ
accept_rank c =
    if nat_beq c b's' then 0 else if nat_beq c b'j' then 1 else if nat_beq c b'b' then 2 else 3

unfoldable pub insert_ranked : Char → String → String
unfolding accept_rank
insert_ranked c String.[] = one c
insert_ranked c (String.◌∷◌ d s) =
    let rest = String.◌∷◌ d (insert_ranked c s) in
    if leb (accept_rank (code c)) (accept_rank (code d))
    then String.◌∷◌ c (String.◌∷◌ d s)
    else rest

-- `_canonical_accept`: a stable sort by rank
unfoldable pub canonical_accept : String → String
unfolding insert_ranked
canonical_accept String.[] = String.[]
canonical_accept (String.◌∷◌ c s) = insert_ranked c (canonical_accept s)

-- `len(set(s)) != len(s)`
unfoldable pub has_duplicates : String → Bool
unfolding has
has_duplicates String.[] = false
has_duplicates (String.◌∷◌ c s) = has (code c) s || has_duplicates s

-- VALID_LIFECYCLES
abbrev pub valid_lifecycles : List String
valid_lifecycles = "longterm" ∷ "session" ∷ "ephemeral" ∷ "stale-ok" ∷ []

pub data AddressError : Type 0 where
  empty_token forbidden_character invalid_lifecycle : AddressError
  empty_accept invalid_accept duplicate_accept unordered_accept : AddressError

pub record AgentAddress : Type 0 where
  pub org : String
  pub role : String
  pub domain : String
  pub subdomain : String
  pub accept : String
  pub lifecycle : String
  pub instance_name : String
  pub params : Dict String

-- `_validate_token`
unfoldable pub validate_token : String → Option AddressError
unfolding is_empty has any
validate_token value =
    if is_empty value
    then some empty_token
    else if any (λ c. has c value) (b'.' ∷ b'?' ∷ b' ' ∷ 9 ∷ 10 ∷ [])
    then some forbidden_character
    else none

-- the first of some checks that raises
unfoldable pub first_error : List String → Option AddressError
unfolding validate_token
first_error [] = none
first_error (value ∷ rest) = elim (validate_token value) [
  | some e ↦ some e
  | none ↦ first_error rest
]

unfoldable pub validate_accept : String → Option AddressError
unfolding is_empty subset has_duplicates canonical_accept
validate_accept accept =
    if is_empty accept
    then some empty_accept
    else if not (subset accept accept_tier_order)
    then some invalid_accept
    else if has_duplicates accept
    then some duplicate_accept
    else if accept == canonical_accept accept
    then none
    else some unordered_accept

-- `AgentAddress.__post_init__`; the params of this type are texts
unfoldable pub validate : AgentAddress → Result AddressError AgentAddress
unfolding first_error validate_accept contains
validate a = elim (first_error (a.org ∷ a.role ∷ a.domain ∷ a.subdomain ∷ a.instance_name ∷ [])) [
  | some e ↦ err e
  | none ↦ elim (validate_accept a.accept) [
    | some e ↦ err e
    | none ↦ if contains a.lifecycle valid_lifecycles then ok a else err invalid_lifecycle
  ]
]

-- the property `fields`
abbrev pub fields : AgentAddress → List String
fields a = a.org ∷ a.role ∷ a.domain ∷ a.subdomain ∷ a.accept ∷ a.lifecycle ∷ a.instance_name ∷ []

-- `accepts`; `none` is the ValueError
unfoldable pub accepts : AgentAddress → String → Option Bool
accepts a String.[] = none
accepts a (String.◌∷◌ c String.[]) = some (has (code c) a.accept)
accepts a (String.◌∷◌ c (String.◌∷◌ d s)) = none

-- `accepts_any`, on a set of tiers that is written as a text
unfoldable pub accepts_any : AgentAddress → String → Bool
unfolding intersects
accepts_any a tiers = intersects a.accept tiers

-- `is_human`
unfoldable pub is_human : AgentAddress → Bool
is_human a = a.role == "human"
