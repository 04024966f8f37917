-- ===== src/Tests/Facade.antt =====
-- The whole broker at concrete inputs.
use agent_handshake_protocol.Prelude.{◌≡◌, refl, false, ◌==◌, none, some, [], ◌∷◌, arith}
use agent_handshake_protocol.Prelude.Int.{pos, ◌+ℤ◌, ◌-ℤ◌}
use agent_handshake_protocol.Prelude.Lists.{All}
use agent_handshake_protocol.Prelude.Dict.{lookup}
use agent_handshake_protocol.Prelude.Exec.{err}
use agent_handshake_protocol.Economy.Pricing.{
  matched, settle_payment, behaviour, effective, retention, reputation_multiplier,
  verbosity_multiplier, compute_multiplier, expected_latency_ms,
}
use agent_handshake_protocol.Economy.Tiers.{tier_multiplier}
use agent_handshake_protocol.Economy.Wallet.{slack, unknown_hold}
use agent_handshake_protocol.Economy.WalletClient.{
  answers_none, get_state, wallet_key, from_json, from_state,
}
use agent_handshake_protocol.Broker.Facade.{
  BrokerState, Broker, reputation_or_new, get_reputation, deregister_compute_provider,
  check_compute_outages,
}
use agent_handshake_protocol.Broker.Facade.Settling.{
  calculate_and_settle, settlement_for, inputs_for,
}
use agent_handshake_protocol.Broker.Facade.Settled.{
  IsSettled, missing, calculate_and_settle-IsSettled, calculate_and_settle-refused,
}
use agent_handshake_protocol.Broker.Facade.Answers.{submit_response, submit_response_once}
use agent_handshake_protocol.Broker.Facade.Outages.{ungraceful_never_found}
use agent_handshake_protocol.Registry.Nudges.{HashRound}
use agent_handshake_protocol.Tests.Core.{analyst}
use agent_handshake_protocol.Tests.Pricing.{log10}
use agent_handshake_protocol.Tests.Broker.{bank, held}
use agent_handshake_protocol.Tests.Registry.{store, registry}
use agent_handshake_protocol.Tests.Routing.{acme, budget, opus}
use agent_handshake_protocol.Tests.Compute.{directory, menu}
use agent_handshake_protocol.Tests.Surveys.{queued, answer}

-- another client hides the agent between the read and the write, once
abbrev pub hidden : HashRound
hidden = record { before_read = none; after_read = some [] }

abbrev pub broker : Broker
broker = record {
  conflict = answers_none;
  log10 = log10;
  heartbeat_ttl = 30;
  threshold = none;
  reward_rate = none;
  registry = some registry;
  rounds = hidden ∷ [];
  survey_id = "sv2";
}

abbrev pub state : BrokerState
state = record {
  redis = bank;
  servers = directory;
  compute = menu;
  reputations = [];
  surveys = queued;
  agents = store;
}

calculate_and_settle-IsSettled_example :
    IsSettled broker "alice" "h1" budget
      (some opus)
      (pos 10)
      (pos 500)
      100
      (pos 0)
      matched
      (some analyst)
      state
unfolding get_state lookup wallet_key from_json ◌+ℤ◌ ◌-ℤ◌ slack settlement_for inputs_for
    reputation_or_new get_reputation settle_payment behaviour effective retention
    reputation_multiplier verbosity_multiplier compute_multiplier tier_multiplier
    expected_latency_ms
calculate_and_settle-IsSettled_example =
    calculate_and_settle-IsSettled broker "alice" "h1" budget (some opus) (pos 10) (pos 500) 100
      (pos 0) matched (some analyst) state held refl tt refl (omega arith)

calculate_and_settle-refused_example :
    calculate_and_settle broker "alice" "h9" acme none
      (pos 10)
      (pos 500)
      100
      (pos 0)
      matched
      none
      state
    ≡ (err (from_state unknown_hold), state)
unfolding get_state lookup wallet_key from_json
calculate_and_settle-refused_example =
    calculate_and_settle-refused broker "alice" "h9" acme none (pos 10) (pos 500) 100 (pos 0)
      matched none state unknown_hold refl (missing refl)

submit_response_once_example :
    submit_response answers_none
      (record answer { score = pos 0 })
      (submit_response answers_none answer state).1
    ≡ (false, (submit_response answers_none answer state).1)
submit_response_once_example =
    submit_response_once answers_none answer (record answer { score = pos 0 }) state refl

ungraceful_never_found_example :
    let gone = record (deregister_compute_provider broker "groq" false state) { redis = bank } in
    (lookup "groq" gone.compute.last_seen ≡ lookup "groq" state.compute.last_seen)
    × All (λ hit. (hit == "groq") ≡ false) (check_compute_outages gone).0
ungraceful_never_found_example = ungraceful_never_found broker "groq" state bank (refl, (refl, tt))

-- another client writes the hash before the read, once, and leaves the agent in it
abbrev pub rewritten : HashRound
rewritten = record { before_read = some store.entries; after_read = none }
