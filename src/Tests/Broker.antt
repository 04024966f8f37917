-- ===== src/Tests/Broker.antt =====
-- Settlements at concrete inputs.
use agent_handshake_protocol.Prelude.{String, ◌≡◌, refl, some, List, [], ◌∷◌, arith}
use agent_handshake_protocol.Prelude.Int.{ℤ, pos, ◌+ℤ◌, ◌-ℤ◌, max_ℤ}
use agent_handshake_protocol.Prelude.Dict.{lookup}
use agent_handshake_protocol.Economy.Pricing.{
  Settlement, SettlementInputs, settle_payment, behaviour, effective, retention,
  reputation_multiplier, verbosity_multiplier, compute_multiplier, expected_latency_ms,
}
use agent_handshake_protocol.Economy.Tiers.{tier_multiplier}
use agent_handshake_protocol.Economy.Wallet.{slack}
use agent_handshake_protocol.Economy.WalletClient.{
  Redis, answers_none, get_state, wallet_key, from_json,
}
use agent_handshake_protocol.Broker.Settlement.{settle, compute_target}
use agent_handshake_protocol.Broker.Settlement.Ledger.{Moves, balance}
use agent_handshake_protocol.Broker.Settlement.Total.{due, settle_ledger, total, settle_total}
use agent_handshake_protocol.Tests.Pricing.{caller, call, log10}

-- alice's wallet, and no other client
abbrev pub bank : Redis
bank = record {
  wallets = ("ahp:wallet:alice", caller) ∷ [];
  mirrors = [];
  clock = 7;
  schedule = [];
}

abbrev pub held : ℤ
held = pos 80_000_000_000_000_000_000_000_000

-- the split of a cheap call
abbrev pub split : Settlement
split = record {
  pre_tax = 2_000_000;
  to_server = pos 1_700_000;
  to_compute = 200_000;
  to_broker = 60_000;
  to_commons = 40_000;
  effective_chars = 1000;
}

settle_ledger_example :
    Moves
      (due "alice" "acme" "gpu-1" split)
      bank
      (settle answers_none "alice" "h1" split "acme" (some "gpu-1") bank)
unfolding get_state lookup wallet_key from_json compute_target ◌+ℤ◌ slack
settle_ledger_example =
    settle_ledger answers_none "alice" "h1" split "acme" (some "gpu-1") held bank refl refl
      (omega arith)

abbrev pub owners : List String
owners = "alice" ∷ "acme" ∷ "gpu-1" ∷ "__broker__" ∷ "__commons__" ∷ []

-- a call at a fifth of the rate, on a leaf that costs more than the call is paid
abbrev pub modest : SettlementInputs
modest = record call { base_rate = 200; leaf_rate_per_1k_chars = 50_000_000 }

settle_total_example :
    let s = settle_payment log10 modest in
    let after = (settle answers_none "alice" "h1" s "acme" (some "gpu-1") bank).1 in
    total owners (λ o. balance o after)
    ≡ total owners (λ o. balance o bank) +ℤ max_ℤ (pos 0) (pos 0 -ℤ s.to_server)
unfolding get_state lookup wallet_key from_json compute_target ◌+ℤ◌ ◌-ℤ◌ slack settle_payment
    behaviour effective retention reputation_multiplier verbosity_multiplier compute_multiplier
    tier_multiplier expected_latency_ms
settle_total_example =
    settle_total log10 modest answers_none "alice" "h1" "acme" (some "gpu-1") held bank owners refl
      refl (omega arith) refl refl refl refl refl
