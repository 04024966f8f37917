-- ===== src/Broker/Facade/Settled.antt =====
-- What the whole settlement of a call does, to the wallets, the reputations and the surveys.
use agent_handshake_protocol.Prelude.{
  ℕ, String, ◌≡◌, refl, ap, ◌∙◌, inl, inr, ◌==◌, Option, none, some, ltb, Bool-cases, Option-cases,
  if◌then◌else◌,
}
use agent_handshake_protocol.Prelude.Int.{ℤ, pos, ◌+ℤ◌, ◌≤ℤ◌, ◌<ℤ◌, ltb_ℤ}
use agent_handshake_protocol.Prelude.Dict.{lookup, lookup-insert, AllEntries, AllEntries-lookup}
use agent_handshake_protocol.Prelude.Exec.{Result, ok, err}
use agent_handshake_protocol.Core.Address.{AgentAddress}
use agent_handshake_protocol.Economy.ComputeProvider.{MenuLeaf}
use agent_handshake_protocol.Economy.Pricing.{Settlement, TierVerdict}
use agent_handshake_protocol.Economy.Reputation.{
  ReputationEntry, SettlementOutcome, apply_outcome, accepted, verbose, refunded, timeout,
}
use agent_handshake_protocol.Economy.Wallet.{slack, WalletError, unknown_hold, insufficient_funds}
use agent_handshake_protocol.Economy.WalletClient.{WalletFailure, from_state, get_state}
use agent_handshake_protocol.Economy.WalletClient.Alone.{Alone}
use agent_handshake_protocol.Broker.Settlement.{settle, compute_target}
use agent_handshake_protocol.Broker.Settlement.Ledger.{balance}
use agent_handshake_protocol.Broker.Settlement.Total.{due, settle_ledger}
use agent_handshake_protocol.Broker.Settlement.Refused.{settle_refused}
use agent_handshake_protocol.Broker.Servers.{ServerMeta}
use agent_handshake_protocol.Broker.Surveys.{SurveyKind}
use agent_handshake_protocol.Broker.Facade.{
  BrokerState, Broker, get_reputation, set_reputation, reputation_or_new, outcome_entry,
  record_outcome, survey_knobs,
}
use agent_handshake_protocol.Broker.Facade.Settling.{
  survey_for, request_survey, maybe_request_survey, outcome_of, nudge_responder, settlement_for,
  after_settle, provider_of, conclude, calculate_and_settle,
}

-- Every entry is stored under its owner.
abbrev pub IsOwned : BrokerState → Type 0
IsOwned s = AllEntries (λ owner e. e.owner ≡ owner) s.reputations

apply_outcome-owner :
    (e : ReputationEntry) (x : SettlementOutcome) (latency : ℤ)
    → (apply_outcome e x latency).owner ≡ e.owner
unfolding apply_outcome
apply_outcome-owner e accepted latency = refl
apply_outcome-owner e verbose latency = refl
apply_outcome-owner e SettlementOutcome.sub_tier latency = refl
apply_outcome-owner e refunded latency = refl
apply_outcome-owner e timeout latency = refl

outcome_entry-owner :
    (e : ReputationEntry) (x : SettlementOutcome) (latency chars most : ℤ)
    → (outcome_entry e x latency chars most).owner ≡ e.owner
unfolding outcome_entry
outcome_entry-owner e x latency chars most = elim (Bool-cases (ltb_ℤ (pos 0) most)) [
  | inl h ↦ rw h (apply_outcome-owner e x latency)
  | inr h ↦ rw h (apply_outcome-owner e x latency)
]

reputation_or_new-owner :
    (o : String) (s : BrokerState) → IsOwned s → (reputation_or_new o s).owner ≡ o
unfolding reputation_or_new get_reputation
reputation_or_new-owner o s h = elim (Option-cases (lookup o s.reputations)) [
  | inl absent ↦ rw (absent, reputation_or_new) refl
  | inr (e, found) ↦
      rw (found, reputation_or_new)
        (AllEntries-lookup (λ owner e. e.owner ≡ owner) o e s.reputations h found)
]

-- what is known of an owner after an outcome
pub get-record_outcome :
    (o o' : String) (x : SettlementOutcome) (latency chars most : ℤ) (s : BrokerState)
    → IsOwned s
    → get_reputation o' (record_outcome o x latency chars most s).1 ≡ (
        if o == o'
        then some (outcome_entry (reputation_or_new o s) x latency chars most)
        else get_reputation o' s)
unfolding record_outcome set_reputation get_reputation
get-record_outcome o o' x latency chars most s h =
    let entry = outcome_entry (reputation_or_new o s) x latency chars most in
    let own : entry.owner ≡ o =
      outcome_entry-owner (reputation_or_new o s) x latency chars most
      ∙ reputation_or_new-owner o s h in
    lookup-insert entry.owner o' entry s.reputations
    ∙ ap (λ k. if k == o' then some entry else lookup o' s.reputations) own

module _ (b : Broker) where
  -- what a survey request leaves alone
  pub record KeepsWallets (s t : BrokerState) : Type 0 where
    pub redis : t.redis ≡ s.redis
    pub reputations : t.reputations ≡ s.reputations

  pub nudge-Keeps :
      (a : Option AgentAddress) (v : TierVerdict) (s : BrokerState)
      → KeepsWallets s (nudge_responder b a v s)
  unfolding nudge_responder
  nudge-Keeps none v s = record { redis = refl; reputations = refl }
  nudge-Keeps (some a) v s = elim (Option-cases b.registry) [
    | inl e ↦ rw (e, nudge_responder) (record { redis = refl; reputations = refl })
    | inr (r, e) ↦ rw (e, nudge_responder) (record { redis = refl; reputations = refl })
  ]

  request-Keeps :
      (kind : SurveyKind) (server actor recipe id : String) (reward : ℤ) (s : BrokerState)
      → KeepsWallets s (request_survey b kind server actor recipe id reward s).1
  unfolding request_survey
  request-Keeps kind server actor recipe id reward s =
      elim (Option-cases (survey_for b kind server actor recipe id reward s)) [
        | inl e ↦ rw (e, request_survey) (record { redis = refl; reputations = refl })
        | inr (q, e) ↦ rw (e, request_survey) (record { redis = refl; reputations = refl })
      ]

  pub maybe-Keeps :
      (caller server : String) (x : Settlement) (id : String) (s : BrokerState)
      → KeepsWallets s (maybe_request_survey b caller server x id s)
  unfolding maybe_request_survey
  maybe-Keeps caller server x id s =
      let (threshold, rate) = survey_knobs b.threshold b.reward_rate in
      elim (Bool-cases (ltb x.pre_tax threshold)) [
        | inl low ↦ rw (low, maybe_request_survey) (record { redis = refl; reputations = refl })
        | inr high ↦ rw (high, maybe_request_survey) (request-Keeps _ server caller _ id _ s)
      ]

  module _ (caller id : String) (server : ServerMeta) (leaf : Option MenuLeaf) (chars most : ℤ)
      (latency : ℕ) (completed : ℤ) (verdict : TierVerdict) (responder : Option AgentAddress)
      (s : BrokerState) where
    -- the price and the shares of the call
    abbrev pub priced : Settlement
    priced = settlement_for b server leaf chars most latency completed verdict s

    abbrev pub run : Result WalletFailure Settlement × BrokerState
    run =
        calculate_and_settle b caller id server leaf chars most latency completed verdict responder
          s

    abbrev pub target : String
    target = compute_target server.server_id (provider_of b leaf)

    -- the answer, every balance and every reputation after the settlement of a call
    pub record IsSettled : Type 0 where
      pub answered : run.0 ≡ ok priced
      pub balances :
          (o : String)
          → balance o run.1.redis ≡ balance o s.redis +ℤ due caller server.server_id target priced o
      pub reputations :
          (o : String)
          → get_reputation o run.1 ≡ (
              if server.server_id == o
              then some (
                  outcome_entry
                    (reputation_or_new server.server_id s)
                    (outcome_of b verdict)
                    (pos latency)
                    chars
                    most)
              else get_reputation o s)

    -- While no other client writes the wallets, and with every reputation under its owner, a call
    -- whose price the hold covers is settled: the five balances move by their shares and no other
    -- does, and the outcome is folded into the reputation of the server and of no other owner.
    pub calculate_and_settle-IsSettled :
        (held : ℤ)
        → Alone s.redis
        → IsOwned s
        → lookup id (get_state caller s.redis).holds ≡ some held
        → pos priced.pre_tax ≤ℤ held +ℤ pos slack
        → IsSettled
    unfolding calculate_and_settle after_settle record_outcome set_reputation get_reputation
        reputation_or_new
    calculate_and_settle-IsSettled held alone owned found covers =
        let moves =
          settle_ledger b.conflict caller id priced server.server_id (provider_of b leaf) held
            s.redis alone found covers in
        let redis =
          (settle b.conflict caller id priced server.server_id (provider_of b leaf) s.redis).1 in
        let settled = record s { redis = redis } in
        let recorded =
          (record_outcome server.server_id (outcome_of b verdict) (pos latency) chars most
            settled).1 in
        let after =
          after_settle b caller id server priced chars most latency verdict responder settled in
        let ran : run ≡ (ok priced, after) =
          ap (λ q. conclude b q priced settled after) moves.answered in
        let nudged = nudge-Keeps responder verdict recorded in
        let surveyed =
          maybe-Keeps caller server.server_id priced id
            (nudge_responder b responder verdict recorded) in
        record {
          answered = ap (λ q. q.0) ran;
          balances = λ o.
              ap (λ q. balance o q.1.redis) ran
              ∙ ap (balance o) (surveyed.redis ∙ nudged.redis)
              ∙ moves.balances o;
          reputations = λ o.
              ap (λ q. get_reputation o q.1) ran
              ∙ ap (lookup o) (surveyed.reputations ∙ nudged.reputations)
              ∙ get-record_outcome server.server_id o (outcome_of b verdict) (pos latency) chars
                  most settled owned;
        }

    -- why a settlement is refused
    pub data Refusal : WalletError → Type 0 where
      missing : lookup id (get_state caller s.redis).holds ≡ none → Refusal unknown_hold
      short :
          (held : ℤ)
          → lookup id (get_state caller s.redis).holds ≡ some held
          → held +ℤ pos slack <ℤ pos priced.pre_tax
          → Refusal insufficient_funds

    -- While no other client writes the wallets, a call whose hold is unknown raises UnknownHold, one
    -- whose price exceeds the hold and the slack raises InsufficientFunds, and the reputations, the
    -- surveys, the agents and the wallets stay as they were.
    pub calculate_and_settle-refused :
        (e : WalletError) → Alone s.redis → Refusal e → run ≡ (err (from_state e), s)
    unfolding calculate_and_settle
    calculate_and_settle-refused e alone why =
        ap
          (λ q.
            let settled = record s { redis = q.1 } in
            conclude b q.0 priced settled
              (after_settle b caller id server priced chars most latency verdict responder settled))
          (refused_step e why)
      where
        refused_step :
            (e : WalletError)
            → Refusal e
            → settle b.conflict caller id priced server.server_id (provider_of b leaf) s.redis
              ≡ (err (from_state e), s.redis)
        refused_step e (missing h) =
            (settle_refused b.conflict caller id priced server.server_id (provider_of b leaf)
                s.redis alone).0
              h
        refused_step e (short held found over) =
            (settle_refused b.conflict caller id priced server.server_id (provider_of b leaf)
                s.redis alone).1
              held found over
