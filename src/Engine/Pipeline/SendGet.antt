-- ===== src/Engine/Pipeline/SendGet.antt =====
-- The hold of a SEND-GET ends with the call.
use Prim.Native.String.{◌++◌ as join}
use agent_handshake_protocol.Prelude.{
  ℕ, String, ◌≡◌, refl, sym, ap, subst, inl, inr, Option, none, some, Bool-cases, Option-cases,
}
use agent_handshake_protocol.Prelude.Dict.{lookup}
use agent_handshake_protocol.Prelude.Exec.{Result, ok, err}
use agent_handshake_protocol.Core.Address.{AgentAddress}
use agent_handshake_protocol.Core.Address.Text.{str}
use agent_handshake_protocol.Economy.WalletClient.{Redis, WalletFailure}
use agent_handshake_protocol.Economy.WalletClient.Alone.{Alone}
use agent_handshake_protocol.Broker.Settlement.Holds.{holds, Touches, Frees}
use agent_handshake_protocol.Broker.Servers.{ServerMeta}
use agent_handshake_protocol.Broker.Facade.{BrokerState}
use agent_handshake_protocol.Engine.Message.{Message}
use agent_handshake_protocol.Engine.Services.{EngineError}
use agent_handshake_protocol.Engine.Pipeline.{
  PipelineError, Plane, Wiring, Held, is_short, first_of_org, owning_servers, listed, hold_amount,
  place, give_back, then_answer, conclude, bus_send_get, after_hold, lift_engine, held_for,
  billed_send_get, broker_send_get, on_broker,
}
use agent_handshake_protocol.Engine.Pipeline.Holds.{
  Frees-after, give_back-Frees, place-Touches, place-err, settle_response-Frees,
}

-- What is free stays free if nothing happens.
pub still-Frees :
    (o j : String) (r r' : Redis) → Alone r → lookup j (holds o r) ≡ none → r' ≡ r → Frees o j r r'
still-Frees o j r r' h free e =
    subst (Frees o j r) (sym e)
      (record { touches = record { alone = h; others = λ i other. refl }; freed = free })

module _ (w : Wiring) (m : Message) where
  answer-plane :
      {A : Type 0} (a : Result PipelineError A) (p : Plane)
      (q : Result WalletFailure (Unit {0}) × BrokerState)
      → (then_answer w a p q).1.broker ≡ q.1
  answer-plane a p (ok x, s) = refl
  answer-plane a p (err e, s) = refl

  engine-plane : {A : Type 0} (q : Result EngineError A × Plane) → (lift_engine w q).1 ≡ q.1
  engine-plane (ok a, p) = refl
  engine-plane (err e, p) = refl

  conclude-Frees :
      (h : Held) (answer : Result EngineError (Option Message)) (p : Plane)
      → Alone p.broker.redis
      → Frees (str m.source) h.hold_id p.broker.redis (conclude w m h answer p).1.broker.redis
  conclude-Frees h (err e) p alone =
      subst (λ s. Frees (str m.source) h.hold_id p.broker.redis s.redis)
        (sym (answer-plane _ p (give_back w m h.hold_id "dispatch exception" p.broker)))
        (give_back-Frees w m h.hold_id "dispatch exception" p.broker alone)
  conclude-Frees h (ok none) p alone =
      subst (λ s. Frees (str m.source) h.hold_id p.broker.redis s.redis)
        (sym (
          answer-plane _ p
            (give_back w m h.hold_id "no response (timeout or target dead)" p.broker)))
        (give_back-Frees w m h.hold_id "no response (timeout or target dead)" p.broker alone)
  conclude-Frees h (ok (some response)) p alone =
      settle_response-Frees w m h response p.broker alone

  refused-plane :
      (h : Held) (timeout : ℕ) (p : Plane) (e : WalletFailure) (s : BrokerState)
      → (after_hold w m h timeout p (err e, s)).1 ≡ on_broker w p s
  refused-plane h timeout p e s = elim (Bool-cases (is_short e)) [ inl k ↦ rw k | inr k ↦ rw k ]

  after_hold-Frees :
      (h : Held) (timeout : ℕ) (p : Plane) (q : Result WalletFailure (Unit {0}) × BrokerState)
      → Alone p.broker.redis
      → lookup h.hold_id (holds (str m.source) p.broker.redis) ≡ none
      → Touches (str m.source) h.hold_id p.broker.redis q.1.redis
      → ((e : WalletFailure) → q.0 ≡ err e → q.1.redis ≡ p.broker.redis)
      → Frees (str m.source) h.hold_id p.broker.redis (after_hold w m h timeout p q).1.broker.redis
  after_hold-Frees h timeout p (ok x, s) alone free touched stays =
      let t : Plane = on_broker w p s in
      Frees-after (str m.source) h.hold_id p.broker.redis s.redis _ touched (
        conclude-Frees h (bus_send_get w m timeout t).0 (bus_send_get w m timeout t).1
          touched.alone)
  after_hold-Frees h timeout p (err e, s) alone free touched stays =
      subst (λ t. Frees (str m.source) h.hold_id p.broker.redis t.broker.redis)
        (sym (refused-plane h timeout p e s))
        (still-Frees (str m.source) h.hold_id p.broker.redis s.redis alone free (stays e refl))

  billed-Frees :
      (target : AgentAddress) (timeout : ℕ) (server : ServerMeta) (p : Plane)
      → Alone p.broker.redis
      → lookup (join "msg:" m.message_id) (holds (str m.source) p.broker.redis) ≡ none
      → Frees
          (str m.source)
          (join "msg:" m.message_id)
          p.broker.redis
          (billed_send_get w m target timeout server p).1.broker.redis
  unfolding billed_send_get held_for
  billed-Frees target timeout server p alone free =
      let h = held_for w m server p.broker in
      let amount = hold_amount w m server h.leaf in
      let why = join "send_get to " (str target) in
      let s = listed w p.broker in
      after_hold-Frees h timeout p (place w m h.hold_id amount why s) alone free
        (place-Touches w m h.hold_id amount why s alone)
        (λ e failed. place-err w m h.hold_id amount why s e alone failed)

  -- While no other client writes the wallets, the hold that a SEND-GET places has ended when the call
  -- does, and no other hold of the caller is touched: whether the caller cannot pay, the bus raises,
  -- nobody answers, or the settlement of the answer goes through or is refused.
  pub broker_send_get-Frees :
      (target : AgentAddress) (timeout : ℕ) (p : Plane)
      → Alone p.broker.redis
      → lookup (join "msg:" m.message_id) (holds (str m.source) p.broker.redis) ≡ none
      → Frees
          (str m.source)
          (join "msg:" m.message_id)
          p.broker.redis
          (broker_send_get w m target timeout p).1.broker.redis
  unfolding broker_send_get
  broker_send_get-Frees target timeout p alone free =
      let o = str m.source in
      let id = join "msg:" m.message_id in
      elim (Option-cases (first_of_org target.org (owning_servers w p.broker))) [
        | inl nobody ↦
            rw (nobody, broker_send_get)
              (still-Frees o id p.broker.redis _ alone free
                (ap (λ t. t.broker.redis) (engine-plane (bus_send_get w m timeout p))))
        | inr (server, owner) ↦
            rw (owner, broker_send_get) (billed-Frees target timeout server p alone free)
      ]
