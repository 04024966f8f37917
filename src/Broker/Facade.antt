-- ===== src/Broker/Facade.antt =====
-- ahp/broker/broker.py: `Broker`, over the stores of its parts. The audit records that it emits are
-- left out. The parameters are the client library's answer to a conflict, the library's `log10`, the
-- knobs of the surveys (in quanta and millionths), the registry of agents if one is wired with what
-- other clients write meanwhile, and the uuid that is drawn next.
pub mod Settling
pub mod Settled
pub mod Outages
pub mod Answers
use Prim.Native.String.{◌++◌ as join}
use agent_handshake_protocol.Prelude.{
  ℕ, ◌+◌, ◌*◌, ◌/◌, ◌%◌, String, Bool, true, false, not, ◌&&◌, Option, none, some, List, [], ◌∷◌,
  ltb, nat_beq, ◌||◌, if◌then◌else◌,
}
use agent_handshake_protocol.Prelude.Int.{ℤ, pos, ◌-ℤ◌, ltb_ℤ}
use agent_handshake_protocol.Prelude.Dict.{Dict, lookup, insert}
use agent_handshake_protocol.Prelude.Exec.{Exec, Result, ok, err, pure, ◌>>=◌, ◌>>◌}
use agent_handshake_protocol.Core.Address.{AgentAddress}
use agent_handshake_protocol.Economy.Tiers.{Tier, small}
use agent_handshake_protocol.Economy.ComputeProvider.{ComputeProvider, MenuLeaf}
use agent_handshake_protocol.Economy.Pricing.{
  Settlement, SettlementInputs, TierVerdict, matched, sub_tier, settle_payment, update_avg_overage,
}
use agent_handshake_protocol.Economy.Reputation.{
  ReputationEntry, new_entry, SettlementOutcome, apply_outcome, apply_csat,
}
use agent_handshake_protocol.Economy.Reputation
use agent_handshake_protocol.Economy.WalletClient.{Redis, WalletFailure, Conflict}
use agent_handshake_protocol.Broker.Settlement.{settle}
use agent_handshake_protocol.Broker.Servers.{ServerMeta, Directory}
use agent_handshake_protocol.Broker.Servers
use agent_handshake_protocol.Broker.Compute.{Menu, list_providers, detect_outage}
use agent_handshake_protocol.Broker.Compute
use agent_handshake_protocol.Broker.Surveys.{
  SurveyKind, post_settlement, SurveyRequest, new_request, Surveys, enqueue,
}
use agent_handshake_protocol.Registry.Store.{Store, AgentRegistry}
use agent_handshake_protocol.Registry.Nudges.{HashRound, update_reputation}

-- the keys of the broker's parts; the clock is that of the wallets
pub record BrokerState : Type 0 where
  pub redis : Redis
  pub servers : Directory
  pub compute : Menu
  pub reputations : Dict ReputationEntry
  pub surveys : Surveys
  pub agents : Store

-- DEFAULT_SURVEY_STAKES_THRESHOLD, 5 credits, and DEFAULT_SURVEY_REWARD_RATE
abbrev pub default_survey_stakes_threshold : ℕ
default_survey_stakes_threshold = 200_000_000_000_000_000_000_000_000_000

abbrev pub default_survey_reward_rate : ℕ
default_survey_reward_rate = 50_000

-- what `float` makes of the two environment variables; `none` is the ValueError
unfoldable pub survey_knobs : (threshold reward_rate : Option ℕ) → ℕ × ℕ
survey_knobs none reward_rate = (default_survey_stakes_threshold, default_survey_reward_rate)
survey_knobs (some t) none = (default_survey_stakes_threshold, default_survey_reward_rate)
survey_knobs (some t) (some r) = (t, r)

-- `Broker.__init__`, and what the calls draw from outside
pub record Broker : Type 0 where
  pub conflict : Conflict
  pub log10 : ℕ → ℕ
  pub heartbeat_ttl : ℕ
  pub threshold : Option ℕ
  pub reward_rate : Option ℕ
  pub registry : Option AgentRegistry
  pub rounds : List HashRound
  pub survey_id : String

-- 10^-6 credits in quanta, and that times the unit of a rate
abbrev pub micro_credit : ℕ
micro_credit = 40_000_000_000_000_000_000_000

abbrev pub rate_unit : ℕ
rate_unit = 1_000_000 * micro_credit

-- `round(pre_tax * reward_rate, 6)`: half to even
unfoldable pub survey_reward : (pre_tax reward_rate : ℕ) → ℕ
survey_reward pre_tax reward_rate =
    let n = pre_tax * reward_rate in
    let q = n / rate_unit in
    let r = 2 * (n % rate_unit) in
    let up = ltb rate_unit r || (nat_beq r rate_unit && nat_beq (q % 2) 1) in
    (if up then q + 1 else q) * micro_credit

-- `get_reputation`
unfoldable pub get_reputation : String → BrokerState → Option ReputationEntry
unfolding lookup
get_reputation owner s = lookup owner s.reputations

-- `set_reputation`
unfoldable pub set_reputation : ReputationEntry → BrokerState → BrokerState
unfolding insert
set_reputation entry s = record s { reputations = insert entry.owner entry s.reputations }

-- `get_reputation(owner) or ReputationEntry(owner=owner)`
unfoldable pub reputation_or_new : String → BrokerState → ReputationEntry
unfolding get_reputation
reputation_or_new owner s = elim (get_reputation owner s) [ none ↦ new_entry owner | some e ↦ e ]

-- the entry that `record_outcome` stores
unfoldable pub outcome_entry :
    ReputationEntry
    → SettlementOutcome
    → (latency_ms response_chars max_response_chars : ℤ) → ReputationEntry
unfolding apply_outcome update_avg_overage
outcome_entry current outcome latency_ms response_chars max_response_chars =
    let updated = apply_outcome current outcome latency_ms in
    if ltb_ℤ (pos 0) max_response_chars
    then record updated {
      avg_overage = update_avg_overage updated.avg_overage response_chars max_response_chars;
    }
    else updated

-- `record_outcome`
unfoldable pub record_outcome :
    (owner : String)
    → SettlementOutcome
    → (latency_ms response_chars max_response_chars : ℤ) → BrokerState
    → ReputationEntry × BrokerState
unfolding reputation_or_new outcome_entry set_reputation
record_outcome owner outcome latency_ms response_chars max_response_chars s =
    let updated =
      outcome_entry (reputation_or_new owner s) outcome latency_ms response_chars
        max_response_chars in
    (updated, set_reputation updated s)

-- the loop of `check_compute_outages`
unfoldable pub outage_loop : List ComputeProvider → BrokerState → List String × BrokerState
unfolding detect_outage record_outcome
outage_loop [] s = ([], s)
outage_loop (p ∷ ps) s =
    let (out, menu) = detect_outage s.redis.clock p.provider_id s.compute in
    let seen = record s { compute = menu } in
    elim out [
      | false ↦ outage_loop ps seen
      | true ↦
          let credited =
            (record_outcome p.provider_id SettlementOutcome.timeout (pos 0) (pos 0) (pos 0)
              seen).1 in
          let (hit, s') = outage_loop ps credited in (p.provider_id ∷ hit, s')
    ]

-- `check_compute_outages`
unfoldable pub check_compute_outages : BrokerState → List String × BrokerState
unfolding outage_loop list_providers
check_compute_outages s = outage_loop (list_providers s.compute.providers) s

module _ (b : Broker) where
  -- the lifecycle of servers and providers
  unfoldable pub register_server : ServerMeta → BrokerState → BrokerState
  unfolding Servers.register
  register_server meta s = record s {
    servers = Servers.register s.redis.clock b.heartbeat_ttl meta s.servers;
  }

  unfoldable pub deregister_server : String → BrokerState → BrokerState
  unfolding Servers.deregister
  deregister_server server_id s = record s { servers = Servers.deregister server_id s.servers }

  unfoldable pub heartbeat_server : String → BrokerState → Bool × BrokerState
  unfolding Servers.heartbeat
  heartbeat_server server_id s =
      let (done, d) = Servers.heartbeat s.redis.clock b.heartbeat_ttl server_id s.servers in
      (done, record s { servers = d })

  unfoldable pub register_compute_provider :
      ComputeProvider → (prove_alive : Bool) → BrokerState → BrokerState
  unfolding Compute.register_provider
  register_compute_provider p prove_alive s = record s {
    compute = Compute.register_provider s.redis.clock b.heartbeat_ttl p prove_alive s.compute;
  }

  unfoldable pub deregister_compute_provider :
      (provider_id : String) (graceful : Bool) → BrokerState → BrokerState
  unfolding Compute.deregister_provider
  deregister_compute_provider provider_id graceful s = record s {
    compute = Compute.deregister_provider provider_id graceful s.compute;
  }

  unfoldable pub heartbeat_compute_provider : String → BrokerState → Bool × BrokerState
  unfolding Compute.heartbeat_provider
  heartbeat_compute_provider provider_id s =
      let (done, m) =
        Compute.heartbeat_provider s.redis.clock b.heartbeat_ttl provider_id s.compute in
      (done, record s { compute = m })

  unfoldable pub register_leaf : MenuLeaf → BrokerState → BrokerState
  unfolding Compute.register_leaf
  register_leaf l s = record s {
    compute = Compute.register_leaf s.redis.clock b.heartbeat_ttl l s.compute;
  }
