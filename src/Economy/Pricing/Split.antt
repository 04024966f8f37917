-- ===== src/Economy/Pricing/Split.antt =====
-- The price of a call is split without loss.
use agent_handshake_protocol.Prelude.{ℕ, ◌+◌, ◌*◌, ◌/◌, ◌≡◌, arith}
use agent_handshake_protocol.Prelude.Int.{pos, ◌+ℤ◌, ◌-ℤ◌, int_laws}
use agent_handshake_protocol.Economy.Tiers.{tier_multiplier}
use agent_handshake_protocol.Economy.Pricing.{
  SettlementInputs, settle_payment, total_tax, behaviour, effective, per_char,
}

split_exact :
    (p c : ℕ)
    → let tax = p * 100 * 5 / 100 in
      (pos (p * 100) -ℤ pos c -ℤ pos tax +ℤ pos c +ℤ pos (tax * 60 / 100) +ℤ pos (tax * 40 / 100)
        ≡ pos (p * 100))
      × (20 * (tax * 60 / 100 + tax * 40 / 100) ≡ p * 100)
      × (5 * (tax * 60 / 100) ≡ 3 * (tax * 60 / 100 + tax * 40 / 100))
split_exact p c = (omega int_laws, omega arith, omega arith)

-- The four shares of a settlement add up to what the caller pays, the tax is 5% of it, and the
-- broker has 60% of the tax.
pub settle_payment_split :
    (log10 : ℕ → ℕ) (inp : SettlementInputs)
    → let s = settle_payment log10 inp in
      (s.to_server +ℤ pos s.to_compute +ℤ pos s.to_broker +ℤ pos s.to_commons ≡ pos s.pre_tax)
      × (20 * total_tax s ≡ s.pre_tax)
      × (5 * s.to_broker ≡ 3 * total_tax s)
unfolding settle_payment total_tax
settle_payment_split log10 inp =
    let chars = effective inp.response_chars inp.max_response_chars in
    split_exact (inp.base_rate * tier_multiplier inp.tier * chars * behaviour log10 inp)
      (inp.leaf_rate_per_1k_chars * chars * per_char)
