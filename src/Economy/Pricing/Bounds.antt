-- ===== src/Economy/Pricing/Bounds.antt =====
-- The ranges of the multipliers, and the price of a call against its hold.
use native.Mathlib.Nat.{le_of_eq, mul-le-mul, mul-le-mul_left}
use agent_handshake_protocol.Prelude.{ℕ, ◌+◌, ◌*◌, ◌≤◌, ◌≡◌, sym, ap, ◌∙◌, arith}
use agent_handshake_protocol.Prelude.Int.{ℤ, pos, pos_part, ◌+ℤ◌, ◌-ℤ◌, ◌≤ℤ◌, max_ℤ}
use agent_handshake_protocol.Economy.Tiers.{Tier}
use agent_handshake_protocol.Economy.Pricing.{
  SettlementInputs, TierVerdict, matched, settle_payment, behaviour, effective,
  verbosity_multiplier, compute_multiplier, reputation_multiplier, estimate_hold,
  expected_latency_ms, retention, neutral, retention_one, verbosity_one,
}

-- The behavioural multipliers stay in their declared ranges, whatever was measured: reputation in
-- 0.5 to 1.5, verbosity in 0.5 to 1.1, compute in 0.25 to 1.0.
pub multipliers_bounds :
    (reputation overage : ℤ) (latency : ℕ) (tier : Tier) (verdict : TierVerdict)
    → (500 ≤ pos_part (reputation_multiplier reputation))
      × (pos_part (reputation_multiplier reputation) ≤ 1500)
      × (500_000 ≤ pos_part (verbosity_multiplier overage))
      × (pos_part (verbosity_multiplier overage) ≤ 1_100_000)
      × (1 ≤ compute_multiplier latency tier verdict)
      × (compute_multiplier latency tier verdict ≤ 4)
unfolding reputation_multiplier verbosity_multiplier compute_multiplier ◌+ℤ◌ ◌-ℤ◌
multipliers_bounds reputation overage latency tier verdict =
    (ground arith, ground arith, ground arith, ground arith, ground arith, ground arith)

-- An honest call: as slow as its tier, and not flagged by the caller.
abbrev pub IsHonest : SettlementInputs → Type 0
IsHonest inp =
    (3 * expected_latency_ms inp.tier ≤ 10 * inp.actual_latency_ms) × (inp.tier_verdict ≡ matched)

honest_multiplier :
    (inp : SettlementInputs)
    → IsHonest inp
    → compute_multiplier inp.actual_latency_ms inp.tier inp.tier_verdict ≡ 4
unfolding compute_multiplier
honest_multiplier inp h = ground arith

within_budget : (x : ℤ) → x ≤ℤ pos 1_000_000 → 1_000_000 ≤ pos_part (verbosity_multiplier x)
unfolding verbosity_multiplier ◌-ℤ◌
within_budget x h = ground arith

reputation_at : (r : ℕ) → r ≤ 1000 → pos_part (reputation_multiplier (pos r)) ≡ 500 + r
unfolding reputation_multiplier ◌+ℤ◌
reputation_at r h = ground arith

effective_full : (a b : ℤ) → b ≤ℤ a → effective a b ≡ pos_part b
unfolding effective
effective_full a b h = ground arith

budget : (b : ℤ) → pos_part (max_ℤ (pos 0) (pos 0)) + pos_part (max_ℤ (pos 0) b) ≡ pos_part b
budget b = ground arith

scaled : (a b x : ℕ) → neutral * x ≤ 1000 * b → a * neutral * 100 * x ≤ 1000 * (a * b * 100)
scaled a b x h = omega (arith, mul-le-mul_left (a * 100) h)

module _ (log10 : ℕ → ℕ) (inp : SettlementInputs) where
  retention-ge : retention_one ≤ retention log10 inp.completed_with_caller
  unfolding retention
  retention-ge = omega arith

  behaviour-ge :
      (r : ℕ)
      → r ≤ 1000
      → inp.server_reputation ≡ pos r
      → inp.server_avg_overage ≤ℤ pos verbosity_one
      → IsHonest inp
      → neutral * (500 + r) ≤ 1000 * behaviour log10 inp
  unfolding behaviour
  behaviour-ge r small rep lean honest =
      let product : retention_one * (500 + r) * verbosity_one * 4 ≤ behaviour log10 inp =
        mul-le-mul
          (mul-le-mul
            (mul-le-mul retention-ge (
              le_of_eq
                (sym (ap (λ x. pos_part (reputation_multiplier x)) rep ∙ reputation_at r small))))
            (within_budget _ lean))
          (le_of_eq (sym (honest_multiplier inp honest))) in
      omega (arith, product)

  -- What a call costs against the hold that was placed for it (no prompt, and a response that fills
  -- its budget), for an honest server of reputation `r`: at least (0.5 + r) times the hold.
  pub pre_tax-ge :
      (r : ℕ)
      → r ≤ 1000
      → inp.server_reputation ≡ pos r
      → inp.server_avg_overage ≤ℤ pos verbosity_one
      → IsHonest inp
      → inp.max_response_chars ≤ℤ inp.response_chars
      → let hold =
          estimate_hold inp.base_rate inp.tier
            (pos 0)
            inp.max_response_chars
            inp.leaf_rate_per_1k_chars in
        hold.amount * (500 + r) ≤ 1000 * (settle_payment log10 inp).pre_tax
  unfolding estimate_hold settle_payment
  pre_tax-ge r small rep lean honest full =
      rw (effective_full _ _ full, budget inp.max_response_chars)
        (scaled _ _ _ (behaviour-ge r small rep lean honest))
