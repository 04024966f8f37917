-- ===== src/Tests/Pricing.antt =====
-- Prices and reputations at concrete inputs.
use agent_handshake_protocol.Prelude.{ℕ, ◌*◌, ◌≡◌, List, [], ◌∷◌}
use agent_handshake_protocol.Prelude.Int.{ℤ, pos, ◌+ℤ◌}
use agent_handshake_protocol.Economy.Tiers.{small}
use agent_handshake_protocol.Economy.Pricing.{SettlementInputs, settle_payment, matched, total_tax}
use agent_handshake_protocol.Economy.Pricing.Split.{settle_payment_split}
use agent_handshake_protocol.Economy.Wallet.{WalletState}
use agent_handshake_protocol.Economy.Reputation.{SettlementOutcome, timeout}

-- a logarithm that grows: the number of digits, up to two
abbrev pub log10 : ℕ → ℕ
log10 n = n * 400_000

-- a call that fills its budget of 1000 characters
abbrev pub call : SettlementInputs
call = record {
  base_rate = 1000;
  tier = small;
  response_chars = pos 1000;
  max_response_chars = pos 1000;
  actual_latency_ms = 700;
  leaf_rate_per_1k_chars = 500_000;
  completed_with_caller = pos 0;
  server_reputation = pos 800;
  server_avg_overage = pos 1_000_000;
  tier_verdict = matched;
}

settle_payment_split_example :
    let s = settle_payment log10 call in
    (s.to_server +ℤ pos s.to_compute +ℤ pos s.to_broker +ℤ pos s.to_commons ≡ pos s.pre_tax)
    × (20 * total_tax s ≡ s.pre_tax)
    × (5 * s.to_broker ≡ 3 * total_tax s)
settle_payment_split_example = settle_payment_split log10 call

no_log : ℕ → ℕ
no_log n = 0

-- the caller's wallet, with the hold for the call
abbrev pub caller : WalletState
caller = record {
  owner = "alice";
  balance = pos 4_000_000_000_000_000_000_000_000_000_000;
  held_total = pos 80_000_000_000_000_000_000_000_000;
  holds = ("h1", pos 80_000_000_000_000_000_000_000_000) ∷ [];
  history = [];
}

abbrev pub failures : List (SettlementOutcome × ℤ)
failures =
    (timeout, pos 0)
    ∷ (timeout, pos 0)
    ∷ (timeout, pos 0)
    ∷ (timeout, pos 0)
    ∷ (timeout, pos 0)
    ∷ []
