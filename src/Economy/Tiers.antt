-- ===== src/Economy/Tiers.antt =====
-- ahp/economy/tiers.py: the four model tiers and their cost multipliers.
use agent_handshake_protocol.Prelude.{
  ℕ, String, Option, none, some, List, [], ◌∷◌, ◌==◌, if◌then◌else◌,
}

pub data Tier : Type 0 where
  tiny small medium big : Tier

-- TIER_MULTIPLIER
unfoldable pub tier_multiplier : Tier → ℕ
tier_multiplier tiny = 1
tier_multiplier small = 2
tier_multiplier medium = 4
tier_multiplier big = 8

-- TIER_ORDER
abbrev pub tier_order : List Tier
tier_order = tiny ∷ small ∷ medium ∷ big ∷ []

unfoldable pub tier_name : Tier → String
tier_name tiny = "tiny"
tier_name small = "small"
tier_name medium = "medium"
tier_name big = "big"

-- DEFAULT_TIER
abbrev pub default_tier : Tier
default_tier = small

-- `none` is the ValueError
unfoldable pub parse_tier : String → Option Tier
parse_tier value =
    if value == "tiny"
    then some tiny
    else if value == "small"
    then some small
    else if value == "medium"
    then some medium
    else if value == "big"
    then some big
    else none
