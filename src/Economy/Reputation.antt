-- ===== src/Economy/Reputation.antt =====
-- ahp/economy/reputation.py. A reputation is a whole number of thousandths (a reward is 5, a penalty
-- 50), a CSAT score and a visibility a whole number of millionths, rounded down. `log10` is the
-- library's function, in units of 10^-6.
pub mod Ranges
pub mod History
use agent_handshake_protocol.Prelude.{
  ℕ, zero, suc, ◌+◌, ◌-◌, ◌*◌, ◌/◌, String, List, [], ◌∷◌, ltb, leb, if◌then◌else◌,
}
use agent_handshake_protocol.Prelude.Int.{ℤ, pos, pos_part, ◌+ℤ◌, ◌-ℤ◌, max_ℤ, min_ℤ, ltb_ℤ}

-- DEFAULT_REPUTATION, 1.0, MIN_REPUTATION_FLOOR, REP_REWARD_SUCCESS and REP_PENALTY_FAILURE
abbrev pub default_reputation : ℤ
default_reputation = pos 500

abbrev pub reputation_one : ℤ
reputation_one = pos 1000

abbrev pub min_reputation_floor : ℤ
min_reputation_floor = pos 300

abbrev pub rep_reward_success : ℤ
rep_reward_success = pos 5

abbrev pub rep_penalty_failure : ℤ
rep_penalty_failure = pos 50

-- DEFAULT_VISIBILITY, 1.0 and VISIBILITY_FULL_AT
abbrev pub default_visibility : ℕ
default_visibility = 50_000

abbrev pub visibility_one : ℕ
visibility_one = 1_000_000

abbrev pub visibility_full_at : ℕ
visibility_full_at = 500

pub data SettlementOutcome : Type 0 where
  accepted verbose sub_tier refunded timeout : SettlementOutcome

pub record ReputationEntry : Type 0 where
  pub owner : String
  pub reputation : ℤ
  pub completed_accepted : ℕ
  pub completed_total : ℕ
  pub failed : ℕ
  pub sum_latency_ms : ℤ
  pub avg_overage : ℕ
  pub csat : ℕ
  pub csat_samples : ℕ

-- `ReputationEntry(owner=owner)`
abbrev pub new_entry : String → ReputationEntry
new_entry owner = record {
  owner = owner;
  reputation = default_reputation;
  completed_accepted = 0;
  completed_total = 0;
  failed = 0;
  sum_latency_ms = pos 0;
  avg_overage = 1_000_000;
  csat = 500_000;
  csat_samples = 0;
}

-- the property `avg_latency_ms`, on a sum that is never negative
unfoldable pub avg_latency_ms : ReputationEntry → ℕ
avg_latency_ms e = elim e.completed_total [ zero ↦ 0 | suc n ↦ pos_part e.sum_latency_ms / suc n ]

-- the last branch of `apply_outcome`: sub_tier, refunded, timeout
abbrev pub fail : ReputationEntry → ReputationEntry
fail e = record e {
  reputation = max_ℤ (pos 0) (e.reputation -ℤ rep_penalty_failure);
  failed = e.failed + 1;
}

unfoldable pub apply_outcome :
    ReputationEntry → SettlementOutcome → (latency_ms : ℤ) → ReputationEntry
apply_outcome e accepted latency_ms = record e {
  reputation = min_ℤ reputation_one (e.reputation +ℤ rep_reward_success);
  completed_accepted = e.completed_accepted + 1;
  completed_total = e.completed_total + 1;
  sum_latency_ms = e.sum_latency_ms +ℤ max_ℤ (pos 0) latency_ms;
}
apply_outcome e verbose latency_ms = record e {
  reputation = max_ℤ (pos 0) (e.reputation -ℤ rep_reward_success);
  completed_total = e.completed_total + 1;
  sum_latency_ms = e.sum_latency_ms +ℤ max_ℤ (pos 0) latency_ms;
}
apply_outcome e sub_tier latency_ms = fail e
apply_outcome e refunded latency_ms = fail e
apply_outcome e timeout latency_ms = fail e

-- `apply_csat` with LAMBDA_CSAT = 1/10
unfoldable pub apply_csat : ReputationEntry → (score : ℤ) → ReputationEntry
apply_csat e score =
    let clamped = pos_part (max_ℤ (pos 0) (min_ℤ (pos 1_000_000) score)) in
    record e {
      csat = elim e.csat_samples [ zero ↦ clamped | suc _ ↦ (9 * e.csat + clamped) / 10 ];
      csat_samples = e.csat_samples + 1;
    }

unfoldable pub visibility_factor : (log10 : ℕ → ℕ) → ReputationEntry → ℕ
visibility_factor log10 e =
    if ltb_ℤ e.reputation min_reputation_floor
    then 0
    else if leb visibility_full_at e.completed_accepted
    then visibility_one
    else default_visibility
      + (visibility_one - default_visibility)
        * log10 (1 + e.completed_accepted)
        / log10 (1 + visibility_full_at)
