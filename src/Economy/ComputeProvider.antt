-- ===== src/Economy/ComputeProvider.antt =====
-- ahp/economy/compute_provider.py: the leaves of a compute menu, the patterns that servers are bound
-- by. A rate is a whole number of nano-credits per 1000 characters, a latency a number of
-- microseconds, a capacity and a reputation a number of millionths: differences are 0 or above the
-- 10^-12 that the code tests.
pub mod Ranking
pub mod Globs
pub mod Best
use Prim.Native.Char.{Char, code}
use Prim.Native.String.{String}
use agent_handshake_protocol.Prelude.{
  ℕ, ◌+◌, ◌-◌, ◌*◌, Bool, true, false, not, ◌&&◌, ◌||◌, Option, none, some, List, [], ◌∷◌, map, ltb,
  leb, nat_beq, if◌then◌else◌,
}
use agent_handshake_protocol.Prelude.Int.{ℤ, pos, pos_part, ltb_ℤ}
use agent_handshake_protocol.Prelude.Dict.{Dict, lookup}
use agent_handshake_protocol.Prelude.Exec.{Result, ok, err}
use agent_handshake_protocol.Prelude.Lists.{filter}
use agent_handshake_protocol.Prelude.Lists.Sorting.{sort_by}
use agent_handshake_protocol.Prelude.Text.{join, split}
use agent_handshake_protocol.Prelude.Text.Order.{text_lt}
use agent_handshake_protocol.Economy.Tiers.{Tier, tier_name, parse_tier}

pub record ComputeProvider : Type 0 where
  pub provider_id : String
  pub operator : String
  pub endpoint : String
  pub region : String
  pub reputation : ℕ
  pub public_key : String
  pub metadata : Dict String

-- `ComputeProvider(provider_id=...)`
abbrev pub new_provider : String → ComputeProvider
new_provider provider_id = record {
  provider_id = provider_id;
  operator = "";
  endpoint = "";
  region = "";
  reputation = 500_000;
  public_key = "";
  metadata = [];
}

pub record MenuLeaf : Type 0 where
  pub provider_id : String
  pub tier : Tier
  pub model : String
  pub rate_per_1k_chars : ℕ
  pub latency_p95_ms : ℕ
  pub capacity : ℕ
  pub healthy : Bool

pub data LeafError : Type 0 where
  unknown_tier negative_rate capacity_out_of_range negative_latency bad_provider bad_model :
      LeafError

-- `[a-z0-9]`, `[a-z0-9-]` and `[a-z0-9._-]`
abbrev pub token_start : ℕ → Bool
token_start n = (leb b'a' n && leb n b'z') || (leb b'0' n && leb n b'9')

abbrev pub provider_char : ℕ → Bool
provider_char n = token_start n || nat_beq n b'-'

abbrev pub model_char : ℕ → Bool
model_char n = token_start n || nat_beq n b'.' || nat_beq n b'_' || nat_beq n b'-'

abbrev pub is_newline : Char → Bool
is_newline c = nat_beq (code c) 10

-- `$` matches at the end, and before a line feed there
unfoldable pub at_end : String → Bool
at_end String.[] = true
at_end (String.◌∷◌ c String.[]) = is_newline c
at_end (String.◌∷◌ c (String.◌∷◌ d s)) = false

-- `[...]*$`
unfoldable pub all_chars : (ℕ → Bool) → String → Bool
unfolding at_end
all_chars allowed String.[] = true
all_chars allowed (String.◌∷◌ c s) =
    at_end (String.◌∷◌ c s) || (allowed (code c) && all_chars allowed s)

-- `re.match(r"^[a-z0-9][...]*$", s)`
unfoldable pub is_token : (ℕ → Bool) → String → Bool
unfolding all_chars
is_token allowed String.[] = false
is_token allowed (String.◌∷◌ c s) = token_start (code c) && all_chars allowed s

-- the checks of `__post_init__` after that of the tier
unfoldable pub leaf_error :
    (provider_id model : String) (rate_per_1k_chars latency_p95_ms capacity : ℤ) → Option LeafError
unfolding is_token
leaf_error provider_id model rate_per_1k_chars latency_p95_ms capacity =
    if ltb_ℤ rate_per_1k_chars (pos 0)
    then some negative_rate
    else if ltb_ℤ capacity (pos 0) || ltb_ℤ (pos 1_000_000) capacity
    then some capacity_out_of_range
    else if ltb_ℤ latency_p95_ms (pos 0)
    then some negative_latency
    else if not (is_token provider_char provider_id)
    then some bad_provider
    else if not (is_token model_char model)
    then some bad_model
    else none

-- `MenuLeaf(...)`
unfoldable pub menu_leaf :
    (provider_id tier model : String)
    → (rate_per_1k_chars latency_p95_ms capacity : ℤ) (healthy : Bool) → Result LeafError MenuLeaf
unfolding parse_tier leaf_error
menu_leaf provider_id tier model rate latency capacity healthy = elim (parse_tier tier) [
  | none ↦ err unknown_tier
  | some t ↦ elim (leaf_error provider_id model rate latency capacity) [
    | some e ↦ err e
    | none ↦ ok (record {
      provider_id = provider_id;
      tier = t;
      model = model;
      rate_per_1k_chars = pos_part rate;
      latency_p95_ms = pos_part latency;
      capacity = pos_part capacity;
      healthy = healthy;
    })
  ]
]

-- the property `address`
unfoldable pub address : MenuLeaf → String
unfolding join tier_name
address leaf = join "." (leaf.provider_id ∷ tier_name leaf.tier ∷ leaf.model ∷ [])

abbrev pub is_star : Char → Bool
is_star c = nat_beq (code c) b'*'

-- one field: `re.match("^" + re.escape(pp).replace(r"\*", ".*") + "$", aa)`
unfoldable pub glob : (pattern field : String) → Bool
unfolding at_end
glob String.[] s = at_end s
glob (String.◌∷◌ p ps) String.[] = is_star p && glob ps String.[]
glob (String.◌∷◌ p ps) (String.◌∷◌ c s) = elim (is_star p) [
  | true ↦ elim (glob ps (String.◌∷◌ c s)) [
    | true ↦ true
    | false ↦ elim (is_newline c) [ true ↦ false | false ↦ glob (String.◌∷◌ p ps) s ]
  ]
  | false ↦ elim (nat_beq (code p) (code c)) [ true ↦ glob ps s | false ↦ false ]
]

-- both have three fields, and each field matches
abbrev pub fields_match : List String → List String → Bool
fields_match (p ∷ q ∷ r ∷ []) (a ∷ b ∷ c ∷ []) = glob p a && glob q b && glob r c
fields_match _ _ = false

-- `_pattern_matches`
unfoldable pub pattern_matches : (pattern address : String) → Bool
unfolding glob split
pattern_matches pattern address = fields_match (split b'.' pattern) (split b'.' address)

-- `matching_leaves`
unfoldable pub matching_leaves : String → List MenuLeaf → List MenuLeaf
unfolding filter pattern_matches address
matching_leaves pattern leaves = filter (λ l. pattern_matches pattern (address l)) leaves
