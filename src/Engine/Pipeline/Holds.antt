-- ===== src/Engine/Pipeline/Holds.antt =====
-- What the steps of the pipelines do to the caller's holds, while no other client writes.
use agent_handshake_protocol.Prelude.{
  ℕ, String, ◌≡◌, refl, sym, ap, subst, ◌∙◌, ◌⊎◌, inl, inr, Option, some,
}
use agent_handshake_protocol.Prelude.Int.{ℤ, pos}
use agent_handshake_protocol.Prelude.Exec.{Result, ok, err, Result-cases}
use agent_handshake_protocol.Core.Address.{AgentAddress}
use agent_handshake_protocol.Core.Address.Text.{str}
use agent_handshake_protocol.Economy.ComputeProvider.{MenuLeaf}
use agent_handshake_protocol.Economy.Pricing.{Settlement, matched}
use agent_handshake_protocol.Economy.WalletClient.{Redis, WalletFailure}
use agent_handshake_protocol.Economy.WalletClient.Alone.{Alone}
use agent_handshake_protocol.Broker.Settlement.{settle}
use agent_handshake_protocol.Broker.Settlement.Holds.{
  Touches, Frees, refund-Frees, hold-Touches, hold-err,
}
use agent_handshake_protocol.Broker.Settlement.Ends.{settle-ends}
use agent_handshake_protocol.Broker.Servers.{ServerMeta}
use agent_handshake_protocol.Broker.Facade.{BrokerState, Broker, record_outcome}
use agent_handshake_protocol.Broker.Facade.Settling.{
  outcome_of, nudge_responder, settlement_for, after_settle, provider_of, conclude,
  calculate_and_settle,
}
use agent_handshake_protocol.Broker.Facade.Settled.{nudge-Keeps, maybe-Keeps}
use agent_handshake_protocol.Engine.Message.{Message}
use agent_handshake_protocol.Engine.Pipeline.{
  Wiring, Held, chars_of, max_resp, place, give_back, or_give_back, settle_response,
}

Touches-trans : (o j : String) (r s t : Redis) → Touches o j r s → Touches o j s t → Touches o j r t
Touches-trans o j r s t h k = record {
  alone = k.alone;
  others = λ i other. k.others i other ∙ h.others i other;
}

pub Frees-after : (o j : String) (r s t : Redis) → Touches o j r s → Frees o j s t → Frees o j r t
Frees-after o j r s t h k = record {
  touches = Touches-trans o j r s t h k.touches;
  freed = k.freed;
}

module _ (b : Broker) (caller id : String) (server : ServerMeta) (leaf : Option MenuLeaf)
    (chars most : ℤ) (latency : ℕ) (responder : Option AgentAddress) (s : BrokerState) where
  price : Settlement
  price = settlement_for b server leaf chars most latency (pos 0) matched s

  paid : Result WalletFailure (Unit {0}) × Redis
  unfolding price
  paid = settle b.conflict caller id price server.server_id (provider_of b leaf) s.redis

  calc : Result WalletFailure Settlement × BrokerState
  calc = calculate_and_settle b caller id server leaf chars most latency (pos 0) matched responder s

  after-redis :
      (x : Settlement) (t : BrokerState)
      → (after_settle b caller id server x chars most latency matched responder t).redis ≡ t.redis
  unfolding after_settle record_outcome
  after-redis x t =
      let recorded =
        (record_outcome server.server_id (outcome_of b matched) (pos latency) chars most t).1 in
      let surveyed =
        maybe-Keeps b caller server.server_id x id (nudge_responder b responder matched recorded) in
      surveyed.redis ∙ (nudge-Keeps b responder matched recorded).redis

  -- The answer and the wallets of `calculate_and_settle` are those of its settlement.
  calc-cases :
      ((paid.0 ≡ ok tt) × (calc.0 ≡ ok price) × (calc.1.redis ≡ paid.1))
      ⊎ ((e : WalletFailure) × (calc ≡ (err e, record s { redis = paid.1 })))
  unfolding calc paid price calculate_and_settle
  calc-cases =
      let t = record s { redis = paid.1 } in
      let after = after_settle b caller id server price chars most latency matched responder t in
      elim (Result-cases paid.0) [
        | inr (e, failed) ↦ inr (e, ap (λ q. conclude b q price t after) failed)
        | inl (u, went) ↦
            let done_ : calc ≡ (ok price, after) = ap (λ q. conclude b q price t after) went in
            inl (went, ap (λ q. q.0) done_, ap (λ q. q.1.redis) done_ ∙ after-redis price t)
      ]

  -- The wallets after the settlement: it frees the hold, or it raises and changes nothing.
  paid-ends :
      Alone s.redis
      → Frees caller id s.redis paid.1 ⊎ ((e : WalletFailure) × (paid ≡ (err e, s.redis)))
  unfolding paid price
  paid-ends alone =
      settle-ends b.conflict caller id price server.server_id (provider_of b leaf) s.redis alone

  paid-Touches : Alone s.redis → Touches caller id s.redis paid.1
  paid-Touches alone = elim (paid-ends alone) [
    | inl freed ↦ freed.touches
    | inr (e, stays) ↦
        subst (λ q. Touches caller id s.redis q.1) (sym stays)
          (record { alone = alone; others = λ i other. refl })
  ]

  went-Frees : Alone s.redis → paid.0 ≡ ok tt → Frees caller id s.redis paid.1
  went-Frees alone went = elim (paid-ends alone) [
    | inl freed ↦ freed
    | inr (e, stays) ↦
        let both : Path (Result WalletFailure (Unit {0})) (err e) (ok tt) =
          sym (ap (λ q. q.0) stays) ∙ went in
        absurd (cc)
  ]

module _ (w : Wiring) (m : Message) where
  or-ok :
      {A : Type 0} (j : String) (a : A) (q : Result WalletFailure A × BrokerState)
      → q.0 ≡ ok a
      → or_give_back w m j q ≡ q.1
  or-ok j a (ok x, s) h = refl
  or-ok j a (err e, s) h = absurd (cc)

  -- a refund frees its hold
  pub give_back-Frees :
      (j why : String) (s : BrokerState)
      → Alone s.redis
      → Frees (str m.source) j s.redis (give_back w m j why s).1.redis
  unfolding give_back
  give_back-Frees j why s h = refund-Frees w.facade.conflict (str m.source) j why s.redis h

  pub place-Touches :
      (j : String) (x : ℤ) (why : String) (s : BrokerState)
      → Alone s.redis
      → Touches (str m.source) j s.redis (place w m j x why s).1.redis
  unfolding place
  place-Touches j x why s h = hold-Touches w.facade.conflict (str m.source) j x why s.redis h

  pub place-err :
      (j : String) (x : ℤ) (why : String) (s : BrokerState) (e : WalletFailure)
      → Alone s.redis
      → (place w m j x why s).0 ≡ err e
      → (place w m j x why s).1.redis ≡ s.redis
  unfolding place
  place-err j x why s e h failed =
      hold-err w.facade.conflict (str m.source) j x why s.redis e h failed

  -- However the settlement of a response ends, its hold is freed.
  pub settle_response-Frees :
      (h : Held) (response : Message) (s : BrokerState)
      → Alone s.redis
      → Frees (str m.source) h.hold_id s.redis (settle_response w m h response s).redis
  unfolding settle_response calc
  settle_response-Frees h response s alone =
      let o = str m.source in
      let chars = chars_of w response.body in
      let most = max_resp w m.body in
      let responder : Option AgentAddress = some response.source in
      let run = calc w.facade o h.hold_id h.server h.leaf chars most w.latency_ms responder s in
      let pays = paid w.facade o h.hold_id h.server h.leaf chars most w.latency_ms responder s in
      elim (calc-cases w.facade o h.hold_id h.server h.leaf chars most w.latency_ms responder s) [
        | inl (went, answered, wallets) ↦
            subst (λ t. Frees o h.hold_id s.redis t.redis) (sym (or-ok h.hold_id _ run answered))
              (subst (Frees o h.hold_id s.redis) (sym wallets) (
                went-Frees w.facade o h.hold_id h.server h.leaf chars most w.latency_ms responder s
                  alone went))
        | inr (e, failed) ↦
            let t = record s { redis = pays.1 } in
            let touched =
              paid-Touches w.facade o h.hold_id h.server h.leaf chars most w.latency_ms responder s
                alone in
            subst (λ q. Frees o h.hold_id s.redis (or_give_back w m h.hold_id q).redis) (sym failed)
              (Frees-after o h.hold_id s.redis pays.1
                (give_back w m h.hold_id "settlement raised" t).1.redis touched
                (give_back-Frees h.hold_id "settlement raised" t touched.alone))
      ]
