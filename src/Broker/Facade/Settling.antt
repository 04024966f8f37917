-- ===== src/Broker/Facade/Settling.antt =====
-- ahp/broker/broker.py: `request_survey` and `calculate_and_settle`, the settlement of a whole call.
use agent_handshake_protocol.Prelude.{ℕ, String, Option, none, some, ltb, if◌then◌else◌}
use agent_handshake_protocol.Prelude.Int.{ℤ, pos, ◌-ℤ◌}
use agent_handshake_protocol.Prelude.Exec.{Result, ok, err}
use agent_handshake_protocol.Core.Address.{AgentAddress}
use agent_handshake_protocol.Economy.Tiers.{small}
use agent_handshake_protocol.Economy.ComputeProvider.{MenuLeaf}
use agent_handshake_protocol.Economy.Pricing.{
  Settlement, SettlementInputs, TierVerdict, matched, sub_tier, settle_payment,
}
use agent_handshake_protocol.Economy.Reputation.{ReputationEntry, SettlementOutcome}
use agent_handshake_protocol.Economy.WalletClient.{WalletFailure}
use agent_handshake_protocol.Broker.Settlement.{settle}
use agent_handshake_protocol.Broker.Servers.{ServerMeta, Directory}
use agent_handshake_protocol.Broker.Servers
use agent_handshake_protocol.Broker.Surveys.{
  SurveyKind, post_settlement, SurveyRequest, new_request, enqueue,
}
use agent_handshake_protocol.Registry.Nudges.{update_reputation}
use agent_handshake_protocol.Broker.Facade.{
  Broker, BrokerState, record_outcome, reputation_or_new, survey_knobs, survey_reward,
}

-- the survey and the settlement of a call
module _ (b : Broker) where
  -- the request that `request_survey` enqueues, unless the server opted out
  unfoldable pub survey_for :
      SurveyKind
      → (target_server surveyed_actor recipe settlement_id : String) (reward : ℤ) → BrokerState
      → Option SurveyRequest
  unfolding new_request Servers.get
  survey_for kind target_server surveyed_actor recipe settlement_id reward s =
      let request =
        new_request s.redis.clock b.survey_id kind target_server surveyed_actor recipe settlement_id
          reward in
      elim (Servers.get target_server s.servers) [
        | none ↦ some request
        | some meta ↦
            if meta.survey_opt_in
            then some (record request {
              consent_csat_routing_at_queue = meta.csat_routing_opt_in;
              consent_training_export_at_queue = meta.training_data_opt_in;
            })
            else none
      ]

  -- `request_survey`
  unfoldable pub request_survey :
      SurveyKind
      → (target_server surveyed_actor recipe settlement_id : String) (reward : ℤ) → BrokerState
      → Option SurveyRequest × BrokerState
  unfolding survey_for enqueue
  request_survey kind target_server surveyed_actor recipe settlement_id reward s =
      elim (survey_for kind target_server surveyed_actor recipe settlement_id reward s) [
        | none ↦ (none, s)
        | some request ↦ (some request, record s { surveys = (enqueue request s.surveys).1 })
      ]

  -- `_maybe_request_survey`
  unfoldable pub maybe_request_survey :
      (caller server_id : String) → Settlement → (hold_id : String) → BrokerState → BrokerState
  unfolding survey_knobs survey_reward request_survey
  maybe_request_survey caller server_id settlement hold_id s =
      let (threshold, rate) = survey_knobs b.threshold b.reward_rate in
      if ltb settlement.pre_tax threshold
      then s
      else (request_survey post_settlement server_id caller "post_settlement:csat" hold_id
          (pos (survey_reward settlement.pre_tax rate)) s).1

  -- what `settle_payment` is given
  unfoldable pub inputs_for :
      ServerMeta
      → Option MenuLeaf
      → ReputationEntry
      → (response_chars max_response_chars : ℤ) → (latency_ms : ℕ) (completed_with_caller : ℤ)
      → TierVerdict
      → SettlementInputs
  inputs_for server leaf rep response_chars max_response_chars latency_ms completed verdict =
      record {
        base_rate = server.base_rate;
        tier = elim leaf [ none ↦ small | some l ↦ l.tier ];
        response_chars = response_chars;
        max_response_chars = max_response_chars;
        actual_latency_ms = latency_ms;
        leaf_rate_per_1k_chars = elim leaf [ none ↦ 0 | some l ↦ l.rate_per_1k_chars ];
        completed_with_caller = completed;
        server_reputation = rep.reputation;
        server_avg_overage = pos rep.avg_overage;
        tier_verdict = verdict;
      }

  abbrev pub outcome_of : TierVerdict → SettlementOutcome
  outcome_of matched = SettlementOutcome.accepted
  outcome_of sub_tier = SettlementOutcome.sub_tier

  -- the nudge of an agent's score, in millionths
  abbrev pub agent_delta : TierVerdict → ℤ
  agent_delta matched = pos 5000
  agent_delta sub_tier = pos 0 -ℤ pos 50_000

  -- the feedback to the responding agent, if there are one and a registry
  unfoldable pub nudge_responder : Option AgentAddress → TierVerdict → BrokerState → BrokerState
  unfolding update_reputation
  nudge_responder none verdict s = s
  nudge_responder (some responder) verdict s = elim b.registry [
    | none ↦ s
    | some registry ↦ record s {
      agents =
          (update_reputation registry b.conflict responder (agent_delta verdict) b.rounds
            s.agents).1;
    }
  ]

  -- the settlement of a call, on the server's reputation as it is stored
  unfoldable pub settlement_for :
      ServerMeta
      → Option MenuLeaf
      → (response_chars max_response_chars : ℤ) → (latency_ms : ℕ) (completed_with_caller : ℤ)
      → TierVerdict
      → BrokerState
      → Settlement
  unfolding settle_payment inputs_for reputation_or_new
  settlement_for server leaf response_chars max_response_chars latency_ms completed verdict s =
      settle_payment b.log10 (
        inputs_for server leaf (reputation_or_new server.server_id s) response_chars
          max_response_chars latency_ms completed verdict)

  -- what follows a settlement that went through
  unfoldable pub after_settle :
      (caller hold_id : String)
      → ServerMeta
      → Settlement
      → (response_chars max_response_chars : ℤ) (latency_ms : ℕ) → TierVerdict
      → Option AgentAddress
      → BrokerState
      → BrokerState
  unfolding record_outcome nudge_responder maybe_request_survey
  after_settle caller hold_id server x response_chars max_response_chars latency_ms verdict
        responder s =
      let recorded =
        (record_outcome server.server_id (outcome_of verdict) (pos latency_ms) response_chars
          max_response_chars s).1 in
      maybe_request_survey caller server.server_id x hold_id
        (nudge_responder responder verdict recorded)

  abbrev pub provider_of : Option MenuLeaf → Option String
  provider_of none = none
  provider_of (some l) = some l.provider_id

  -- the rest is done only if the settlement did not raise
  abbrev pub conclude :
      Result WalletFailure (Unit {0})
      → Settlement
      → (settled after : BrokerState) → Result WalletFailure Settlement × BrokerState
  conclude (err e) x settled after = (err e, settled)
  conclude (ok _) x settled after = (ok x, after)

  -- `calculate_and_settle`
  unfoldable pub calculate_and_settle :
      (caller hold_id : String)
      → ServerMeta
      → Option MenuLeaf
      → (response_chars max_response_chars : ℤ) (latency_ms : ℕ) (completed_with_caller : ℤ)
      → TierVerdict
      → Option AgentAddress
      → BrokerState
      → Result WalletFailure Settlement × BrokerState
  unfolding settlement_for settle after_settle
  calculate_and_settle caller hold_id server leaf response_chars max_response_chars latency_ms
        completed verdict responder s =
      let x =
        settlement_for server leaf response_chars max_response_chars latency_ms completed verdict
          s in
      let (answer, redis) =
        settle b.conflict caller hold_id x server.server_id (provider_of leaf) s.redis in
      let settled = record s { redis = redis } in
      conclude answer x settled (
        after_settle caller hold_id server x response_chars max_response_chars latency_ms verdict
          responder settled)
