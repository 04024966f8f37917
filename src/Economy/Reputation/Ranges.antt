-- ===== src/Economy/Reputation/Ranges.antt =====
-- Every score stays in its range.
use native.Mathlib.Nat.{div-le_of_le-mul}
use agent_handshake_protocol.Prelude.{ℕ, ◌+◌, ◌*◌, ◌/◌, ◌≤◌, ◌≡◌, ◌⊎◌, inl, inr, arith, Bool-cases}
use agent_handshake_protocol.Prelude.Int.{ℤ, pos, ◌≤ℤ◌, ◌<ℤ◌, ◌+ℤ◌, ◌-ℤ◌, ltb_ℤ}
use agent_handshake_protocol.Economy.Reputation.{
  ReputationEntry, SettlementOutcome, accepted, apply_outcome, apply_csat, visibility_factor,
}

-- The scores of an entry are in range, and accepted calls are completed calls.
pub record IsScored (e : ReputationEntry) : Type 0 where
  pub at_least : pos 0 ≤ℤ e.reputation
  pub at_most : e.reputation ≤ℤ pos 1000
  pub csat_at_most : e.csat ≤ 1_000_000
  pub counts : e.completed_accepted ≤ e.completed_total
  pub latency : pos 0 ≤ℤ e.sum_latency_ms

pub outcome-IsScored :
    (e : ReputationEntry) (o : SettlementOutcome) (latency : ℤ)
    → IsScored e
    → IsScored (apply_outcome e o latency)
unfolding apply_outcome ◌+ℤ◌ ◌-ℤ◌
outcome-IsScored e accepted latency h = ground arith
outcome-IsScored e _ latency h = ground arith

csat-IsScored : (e : ReputationEntry) (score : ℤ) → IsScored e → IsScored (apply_csat e score)
unfolding apply_csat
csat-IsScored e score h = ground arith

-- Every outcome and every survey score, in range or not, keeps the scores in range.
pub apply-IsScored :
    (e : ReputationEntry) (o : SettlementOutcome) (latency score : ℤ)
    → IsScored e
    → IsScored (apply_outcome e o latency) × IsScored (apply_csat e score)
apply-IsScored e o latency score h = (outcome-IsScored e o latency h, csat-IsScored e score h)

fraction-le : (a b : ℕ) → a ≤ b → 950_000 * a / b ≤ 950_000
fraction-le a b h = div-le_of_le-mul b (omega arith)

-- For a logarithm that grows, a server at or above the reputation floor is considered with a
-- probability between the default and 1, and one below the floor never.
pub visibility_factor_bounds :
    (log10 : ℕ → ℕ) (e : ReputationEntry)
    → ((m n : ℕ) → m ≤ n → log10 m ≤ log10 n)
    → let v = visibility_factor log10 e in
      ((e.reputation <ℤ pos 300) × (v ≡ 0))
      ⊎ ((pos 300 ≤ℤ e.reputation) × (50_000 ≤ v) × (v ≤ 1_000_000))
unfolding visibility_factor
visibility_factor_bounds log10 e mono = elim (Bool-cases (ltb_ℤ e.reputation (pos 300))) [
  | inl below ↦ inl (ground arith, ground arith)
  | inr above ↦ inr (
    ground arith,
    ground arith,
    ground (
      arith,
      mono (1 + e.completed_accepted) 501,
      fraction-le (log10 (1 + e.completed_accepted)) (log10 501),
    ),
  )
]
