-- ===== src/Economy/Pricing.antt =====
-- ahp/economy/pricing.py: the hold for a call and the four-way split of its price, exact.
-- A rate is a whole number of nano-credits (per character and tier unit, per 1000 characters), an
-- amount a number of quanta, 4 * 10^19 to the nano-credit. The multipliers are whole numbers of
-- their own units: 10^-8 for retention, 10^-3 for reputation, 10^-6 for verbosity, 1/4 for compute.
-- `log10` is the library's function, in units of 10^-6.
pub mod Split
pub mod Bounds
use agent_handshake_protocol.Prelude.{
  ℕ, ◌+◌, ◌-◌, ◌*◌, ◌/◌, Bool, true, false, Option, none, some, List, [], ◌∷◌, ltb, if◌then◌else◌,
}
use agent_handshake_protocol.Prelude.Int.{ℤ, pos, pos_part, ◌+ℤ◌, ◌-ℤ◌, max_ℤ, min_ℤ, ltb_ℤ, leb_ℤ}
use agent_handshake_protocol.Economy.Tiers.{Tier, tiny, small, medium, big, tier_multiplier}

pub data TierVerdict : Type 0 where
  matched sub_tier : TierVerdict

-- DEFAULT_EXPECTED_RESPONSE_CHARS
abbrev pub default_expected_response_chars : ℕ
default_expected_response_chars = 800

-- 1.0 in the units of retention, and RETENTION_ALPHA = 5/100 applied to `log10`'s units
abbrev pub retention_one : ℕ
retention_one = 100_000_000

abbrev pub retention_alpha : ℕ
retention_alpha = 5

-- 1.0 in the units of reputation, with the floor and the ceiling of its multiplier
abbrev pub reputation_one : ℕ
reputation_one = 1000

abbrev pub reputation_floor_mult : ℕ
reputation_floor_mult = 500

abbrev pub reputation_ceil_mult : ℕ
reputation_ceil_mult = 1500

-- 1.0 in the units of verbosity, with the floor and the ceiling of its multiplier
abbrev pub verbosity_one : ℕ
verbosity_one = 1_000_000

abbrev pub verbosity_floor_mult : ℕ
verbosity_floor_mult = 500_000

abbrev pub verbosity_ceil_mult : ℕ
verbosity_ceil_mult = 1_100_000

-- 1.0 in the units of the compute multiplier
abbrev pub compute_one : ℕ
compute_one = 4

-- PROTOCOL_TAX_RATE, BROKER_TAX_SHARE and COMMONS_TAX_SHARE, in percent
abbrev pub protocol_tax_rate : ℕ
protocol_tax_rate = 5

abbrev pub broker_tax_share : ℕ
broker_tax_share = 60

abbrev pub commons_tax_share : ℕ
commons_tax_share = 100 - 60

-- EXPECTED_LATENCY_MS
unfoldable pub expected_latency_ms : Tier → ℕ
expected_latency_ms tiny = 200
expected_latency_ms small = 600
expected_latency_ms medium = 1500
expected_latency_ms big = 4000

pub record SettlementInputs : Type 0 where
  pub base_rate : ℕ
  pub tier : Tier
  pub response_chars : ℤ
  pub max_response_chars : ℤ
  pub actual_latency_ms : ℕ
  pub leaf_rate_per_1k_chars : ℕ
  pub completed_with_caller : ℤ
  pub server_reputation : ℤ
  pub server_avg_overage : ℤ
  pub tier_verdict : TierVerdict

pub record Settlement : Type 0 where
  pub pre_tax : ℕ
  pub to_server : ℤ
  pub to_compute : ℕ
  pub to_broker : ℕ
  pub to_commons : ℕ
  pub effective_chars : ℕ

unfoldable pub total_tax : Settlement → ℕ
total_tax s = s.to_broker + s.to_commons

pub record Hold : Type 0 where
  pub amount : ℕ
  pub estimated_chars : ℕ

unfoldable pub verbosity_multiplier : ℤ → ℤ
verbosity_multiplier avg_overage =
    let raw = pos 2_000_000 -ℤ max_ℤ (pos 0) avg_overage in
    max_ℤ (pos verbosity_floor_mult) (min_ℤ (pos verbosity_ceil_mult) raw)

-- `actual < 0.3 * expected` is read in tenths.
unfoldable pub compute_multiplier : ℕ → Tier → TierVerdict → ℕ
unfolding expected_latency_ms
compute_multiplier actual_latency_ms tier tier_verdict =
    let too_fast = ltb (10 * actual_latency_ms) (3 * expected_latency_ms tier) in
    let latency_mult : ℕ = if too_fast then 1 else 2 in
    let verdict_mult : ℕ = elim tier_verdict [ sub_tier ↦ 1 | matched ↦ 2 ] in
    latency_mult * verdict_mult

unfoldable pub reputation_multiplier : ℤ → ℤ
reputation_multiplier server_reputation =
    let rep = max_ℤ (pos 0) (min_ℤ (pos reputation_one) server_reputation) in
    let rep_mult = pos reputation_floor_mult +ℤ rep in
    max_ℤ (pos reputation_floor_mult) (min_ℤ (pos reputation_ceil_mult) rep_mult)

-- `min(response_chars, max_response_chars)`, at least 0
unfoldable pub effective : ℤ → ℤ → ℕ
effective response_chars max_response_chars =
    pos_part (max_ℤ (pos 0) (min_ℤ response_chars max_response_chars))

-- nano-credits times every multiplier's unit, in quanta
abbrev pub scale : ℕ
scale = 100

-- quanta in a nano-credit, by 1000 characters
abbrev pub per_char : ℕ
per_char = 40_000_000_000_000_000

-- the four behavioural multipliers at 1.0
abbrev pub neutral : ℕ
neutral = 400_000_000_000_000_000

unfoldable pub estimate_hold :
    (base_rate : ℕ) (tier : Tier) (prompt_chars max_response_chars : ℤ)
    → (leaf_rate_per_1k_chars : ℕ) → Hold
unfolding tier_multiplier
estimate_hold base_rate tier prompt_chars max_response_chars leaf_rate_per_1k_chars =
    let chars =
      pos_part (max_ℤ (pos 0) prompt_chars) + pos_part (max_ℤ (pos 0) max_response_chars) in
    record {
      amount = base_rate * tier_multiplier tier * chars * neutral * scale;
      estimated_chars = chars;
    }

module _ (log10 : ℕ → ℕ) where
  unfoldable pub retention : ℤ → ℕ
  retention completed_with_caller =
      retention_one + retention_alpha * log10 (1 + pos_part (max_ℤ (pos 0) completed_with_caller))

  -- the product of the behavioural multipliers
  unfoldable pub behaviour : SettlementInputs → ℕ
  unfolding retention
  behaviour inp =
      retention inp.completed_with_caller
      * pos_part (reputation_multiplier inp.server_reputation)
      * pos_part (verbosity_multiplier inp.server_avg_overage)
      * compute_multiplier inp.actual_latency_ms inp.tier inp.tier_verdict

  unfoldable pub settle_payment : SettlementInputs → Settlement
  unfolding behaviour
  settle_payment inp =
      let chars = effective inp.response_chars inp.max_response_chars in
      let pre_tax = inp.base_rate * tier_multiplier inp.tier * chars * behaviour inp * scale in
      let compute_cost = inp.leaf_rate_per_1k_chars * chars * per_char in
      let protocol_tax = pre_tax * protocol_tax_rate / 100 in
      record {
        pre_tax = pre_tax;
        to_server = pos pre_tax -ℤ pos compute_cost -ℤ pos protocol_tax;
        to_compute = compute_cost;
        to_broker = protocol_tax * broker_tax_share / 100;
        to_commons = protocol_tax * commons_tax_share / 100;
        effective_chars = chars;
      }

-- `update_avg_overage` with LAMBDA_AVG_OVERAGE = 5/100, in units of 10^-6, rounded down. The
-- ratio is never negative there, nor is the average, which starts at 1.0.
unfoldable pub update_avg_overage : (current : ℕ) (new_response_chars max_response_chars : ℤ) → ℕ
update_avg_overage current new_response_chars max_response_chars =
    if leb_ℤ max_response_chars (pos 0)
    then current
    else let chars = pos_part (max_ℤ (pos 0) new_response_chars) in
      let budget = pos_part max_response_chars in
      (95 * current * budget + 5 * chars * verbosity_one) / (100 * budget)
