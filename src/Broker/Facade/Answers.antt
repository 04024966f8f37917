-- ===== src/Broker/Facade/Answers.antt =====
-- ahp/broker/surveys.py: `submit_response` with the broker's wallets and reputations. What goes wrong
-- on the way is logged there and raised nowhere; what was written before it stays.
use Prim.Native.String.{◌++◌ as join}
use agent_handshake_protocol.Prelude.{
  String, ◌≡◌, refl, ap, subst, inl, inr, Bool, true, false, ◌==◌, eq_refl, Option, none, some,
  is_some, Bool-cases, if◌then◌else◌,
}
use agent_handshake_protocol.Prelude.Int.{ℤ, pos, ◌+ℤ◌, ◌-ℤ◌, ◌≤ℤ◌, ◌<ℤ◌, ltb_ℤ, int_laws}
use agent_handshake_protocol.Prelude.Dict.{lookup, lookup-insert}
use agent_handshake_protocol.Prelude.Exec.{◌>>◌}
use agent_handshake_protocol.Economy.Reputation.{apply_csat}
use agent_handshake_protocol.Economy.Wallet.{available}
use agent_handshake_protocol.Economy.WalletClient.{Redis, Conflict, get_state}
use agent_handshake_protocol.Economy.WalletClient.Alone.{Alone}
use agent_handshake_protocol.Broker.Settlement
use agent_handshake_protocol.Broker.Settlement.{Step, commons_wallet, release}
use agent_handshake_protocol.Broker.Settlement.Ledger.{balance, share, then-Moves}
use agent_handshake_protocol.Broker.Settlement.Refused.{then-err}
use agent_handshake_protocol.Broker.Banker.{credit, withdraw}
use agent_handshake_protocol.Broker.Banker.Transfers.{credit-Moves, withdraw-Moves, hold-refused}
use agent_handshake_protocol.Broker.Surveys.{
  SurveyRequest, SurveyResponse, get_request, record_response,
}
use agent_handshake_protocol.Broker.Facade.{BrokerState, set_reputation, reputation_or_new}

module _ (conflict : Conflict) where
  -- from the commons to the actor: a hold, its settlement, a credit
  unfoldable pub pay_reward : SurveyRequest → Step
  unfolding withdraw credit
  pay_reward request = do
    withdraw conflict commons_wallet request.reward (join "survey:" request.survey_id)
        (join "survey reward " request.survey_id) (join "survey payout " request.survey_id)
    credit conflict request.surveyed_actor request.reward (join "survey reward " request.survey_id)

  -- the wallet half of `_pay_and_score`
  unfoldable pub pay : SurveyRequest → Redis → Redis
  unfolding pay_reward
  pay request r = if ltb_ℤ (pos 0) request.reward then (pay_reward request r).1 else r

  -- the CSAT half of `_pay_and_score`
  unfoldable pub score : SurveyRequest → SurveyResponse → BrokerState → BrokerState
  unfolding reputation_or_new apply_csat set_reputation
  score request response s =
      set_reputation (apply_csat (reputation_or_new request.target_server s) response.score) s

  -- `_pay_and_score`
  unfoldable pub pay_and_score : SurveyRequest → SurveyResponse → BrokerState → BrokerState
  unfolding pay score
  pay_and_score request response s =
      score request response (record s { redis = pay request s.redis })

  -- the pending request, if there is one, is paid and scored
  abbrev pub reward_for : Option SurveyRequest → SurveyResponse → BrokerState → BrokerState
  reward_for none response s = s
  reward_for (some request) response s = pay_and_score request response s

  -- `submit_response`, with a broker
  unfoldable pub submit_response : SurveyResponse → BrokerState → Bool × BrokerState
  unfolding lookup record_response get_request pay_and_score
  submit_response response s = elim (is_some (lookup response.survey_id s.surveys.responses)) [
    | true ↦ (false, s)
    | false ↦
        let recorded = record s { surveys = record_response response s.surveys } in
        (true, reward_for (get_request response.survey_id recorded.surveys) response recorded)
  ]

  reward_for-surveys :
      (q : Option SurveyRequest) (response : SurveyResponse) (s : BrokerState)
      → (reward_for q response s).surveys ≡ s.surveys
  unfolding pay_and_score score set_reputation
  reward_for-surveys none response s = refl
  reward_for-surveys (some request) response s = refl

  -- after a submission there is an answer under its id
  answered :
      (response : SurveyResponse) (s : BrokerState)
      → is_some (lookup response.survey_id (submit_response response s).1.surveys.responses) ≡ true
  unfolding submit_response record_response
  answered response s =
      elim (Bool-cases (is_some (lookup response.survey_id s.surveys.responses))) [
        | inl e ↦ rw (e, submit_response) e
        | inr e ↦
            let recorded = record s { surveys = record_response response s.surveys } in
            rw
              (
                e,
                submit_response,
                reward_for-surveys (get_request response.survey_id recorded.surveys) response
                    recorded,
              )
              (rw (lookup-insert, eq_refl) refl)
      ]

  -- A second answer to a survey is refused and changes nothing: no reward is paid twice, and no score
  -- is counted twice.
  pub submit_response_once :
      (first second : SurveyResponse) (s : BrokerState)
      → first.survey_id ≡ second.survey_id
      → submit_response second (submit_response first s).1 ≡ (false, (submit_response first s).1)
  unfolding submit_response
  submit_response_once first second s same =
      let after = (submit_response first s).1 in
      let there : is_some (lookup second.survey_id after.surveys.responses) ≡ true =
        subst (λ i. is_some (lookup i after.surveys.responses) ≡ true) same (answered first s) in
      rw (there, submit_response) refl

  -- what a reward adds to the balance of one owner
  abbrev pub rewarded : SurveyRequest → String → ℤ
  rewarded request o =
      share (commons_wallet == o) (pos 0 -ℤ request.reward)
      +ℤ share (request.surveyed_actor == o) request.reward

  -- While no other client writes, the reward of a survey that the commons have available goes from the
  -- commons to the surveyed actor, and no other balance moves.
  pub pay_ledger :
      (request : SurveyRequest) (r : Redis)
      → Alone r
      → pos 0 <ℤ request.reward
      → lookup (join "survey:" request.survey_id) (get_state commons_wallet r).holds ≡ none
      → request.reward ≤ℤ available (get_state commons_wallet r)
      → (o : String) → balance o (pay request r) ≡ balance o r +ℤ rewarded request o
  unfolding pay pay_reward
  pay_ledger request r alone due free covered o =
      let x = request.reward in
      let id = join "survey:" request.survey_id in
      let why = join "survey reward " request.survey_id in
      let why' = join "survey payout " request.survey_id in
      let positive : ltb_ℤ (pos 0) x ≡ true = grind int_laws in
      let moves =
        then-Moves (λ o. share (commons_wallet == o) (pos 0 -ℤ x))
          (λ o. share (request.surveyed_actor == o) x)
          (withdraw conflict commons_wallet x id why why')
          (credit conflict request.surveyed_actor x why) r
          (withdraw-Moves conflict commons_wallet id x why why' r alone free (grind int_laws)
            covered)
          (λ r' h'. credit-Moves conflict request.surveyed_actor x why r' h' due) in
      rw positive (moves.balances o)

  -- Depleted commons pay nothing, and no balance changes.
  pub pay-depleted :
      (request : SurveyRequest) (r : Redis)
      → Alone r
      → pos 0 <ℤ request.reward
      → lookup (join "survey:" request.survey_id) (get_state commons_wallet r).holds ≡ none
      → available (get_state commons_wallet r) <ℤ request.reward
      → pay request r ≡ r
  unfolding pay pay_reward withdraw
  pay-depleted request r alone due free short =
      let x = request.reward in
      let id = join "survey:" request.survey_id in
      let why = join "survey reward " request.survey_id in
      let why' = join "survey payout " request.survey_id in
      let positive : ltb_ℤ (pos 0) x ≡ true = grind int_laws in
      let refused =
        then-err (withdraw conflict commons_wallet x id why why')
          (credit conflict request.surveyed_actor x why) r
          (then-err (Settlement.hold conflict commons_wallet x id why)
            (release conflict commons_wallet id x why') r
            (hold-refused conflict commons_wallet id x why r alone free (grind int_laws) short)) in
      rw positive (ap (λ q. q.1) refused)
