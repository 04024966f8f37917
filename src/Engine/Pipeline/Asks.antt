-- ===== src/Engine/Pipeline/Asks.antt =====
-- ahp/engine/router.py: what `_broker_send_get` and `_broker_cast_get` ask of the bus.
use Prim.Native.String.{◌++◌ as join}
use agent_handshake_protocol.Prelude.{
  ℕ, ◌≡◌, refl, sym, subst, inl, inr, true, Option, none, some, List, [], ◌∷◌, Bool-cases,
  Option-cases,
}
use agent_handshake_protocol.Prelude.Dict.{Dict, insert}
use agent_handshake_protocol.Prelude.Exec.{Result, ok, err, Result-cases}
use agent_handshake_protocol.Prelude.Lists.{All}
use agent_handshake_protocol.Core.Address.{AgentAddress}
use agent_handshake_protocol.Core.Address.Text.{str}
use agent_handshake_protocol.Economy.ComputeProvider.{MenuLeaf}
use agent_handshake_protocol.Economy.WalletClient.{WalletFailure}
use agent_handshake_protocol.Broker.Servers.{ServerMeta}
use agent_handshake_protocol.Broker.Compute.{list_leaves}
use agent_handshake_protocol.Broker.Facade.{BrokerState}
use agent_handshake_protocol.Engine.Message.{Message}
use agent_handshake_protocol.Engine.Services.{EngineError, Trace, asked, cast_asked}
use agent_handshake_protocol.Engine.Pipeline.{
  PipelineError, Plane, Wiring, Held, is_short, first_of_org, last_of_org, owning_servers, listed,
  hold_amount, place, then_answer, give_back, conclude, after_hold, bus_send_get, lift_engine,
  held_for, billed_send_get, broker_send_get, on_broker,
}
use agent_handshake_protocol.Engine.Pipeline.CastGet.{
  Placed, held_of, also, place_holds, after_dispatch, dispatch, after_holds, broker_cast_get,
}

module _ (w : Wiring) (m : Message) where
  then_answer-trace :
      {A : Type 0} (a : Result PipelineError A) (p : Plane)
      (q : Result WalletFailure (Unit {0}) × BrokerState)
      → (then_answer w a p q).1.trace ≡ p.trace
  then_answer-trace a p (ok x, s) = refl
  then_answer-trace a p (err e, s) = refl

  lift_engine-trace :
      {A : Type 0} (q : Result EngineError A × Plane) → (lift_engine w q).1.trace ≡ q.1.trace
  lift_engine-trace (ok a, p) = refl
  lift_engine-trace (err e, p) = refl

  conclude-trace :
      (h : Held) (answer : Result EngineError (Option Message)) (p : Plane)
      → (conclude w m h answer p).1.trace ≡ p.trace
  conclude-trace h (err e) p =
      then_answer-trace _ p (give_back w m h.hold_id "dispatch exception" p.broker)
  conclude-trace h (ok none) p =
      then_answer-trace _ p
        (give_back w m h.hold_id "no response (timeout or target dead)" p.broker)
  conclude-trace h (ok (some response)) p = refl

  -- A SEND-GET asks for nothing, or for its message.
  after_hold-keeps :
      (P : Trace → Type 0) (h : Held) (timeout : ℕ) (p : Plane)
      (q : Result WalletFailure (Unit {0}) × BrokerState)
      → P p.trace
      → P (asked m timeout ∷ p.trace)
      → P (after_hold w m h timeout p q).1.trace
  after_hold-keeps P h timeout p (ok x, s) before after =
      let (answer, q) = bus_send_get w m timeout (on_broker w p s) in
      subst P (sym (conclude-trace h answer q)) after
  after_hold-keeps P h timeout p (err e, s) before after = elim (Bool-cases (is_short e)) [
    | inl k ↦ rw k before
    | inr k ↦ rw k before
  ]

  billed-keeps :
      (P : Trace → Type 0) (target : AgentAddress) (timeout : ℕ) (server : ServerMeta) (p : Plane)
      → P p.trace
      → P (asked m timeout ∷ p.trace)
      → P (billed_send_get w m target timeout server p).1.trace
  unfolding billed_send_get held_for
  billed-keeps P target timeout server p before after =
      let h = held_for w m server p.broker in
      after_hold-keeps P h timeout p
        (place w m h.hold_id (hold_amount w m server h.leaf) (join "send_get to " (str target))
          (listed w p.broker))
        before after

  pub broker_send_get-keeps :
      (P : Trace → Type 0) (target : AgentAddress) (timeout : ℕ) (p : Plane)
      → P p.trace
      → P (asked m timeout ∷ p.trace)
      → P (broker_send_get w m target timeout p).1.trace
  unfolding broker_send_get
  broker_send_get-keeps P target timeout p before after =
      elim (Option-cases (first_of_org target.org (owning_servers w p.broker))) [
        | inl nobody ↦
            rw (nobody, broker_send_get)
              (subst P (sym (lift_engine-trace (bus_send_get w m timeout p))) after)
        | inr (server, owner) ↦
            rw (owner, broker_send_get) (billed-keeps P target timeout server p before after)
      ]

  -- what holds of the targets that are sent to
  abbrev pub Delivers : (AgentAddress → Type 0) → Result WalletFailure Placed → Type 0
  Delivers R (err e) = Unit
  Delivers R (ok placed) = All R placed.deliverable

  also-Delivers :
      (R : AgentAddress → Type 0) (target : AgentAddress)
      (q : Result WalletFailure Placed × BrokerState)
      → R target
      → Delivers R q.0
      → Delivers R (also w m target q).0
  also-Delivers R target (err e, s) r h = tt
  also-Delivers R target (ok placed, s) r h = (r, h)

  -- Only targets of the call are sent to.
  place_holds-Delivers :
      (R : AgentAddress → Type 0) (servers : List ServerMeta) (leaves : List MenuLeaf)
      (targets : List AgentAddress) (held : Dict Held) (s : BrokerState)
      → All R targets
      → Delivers R (place_holds w m servers leaves targets held s).0
  unfolding place_holds
  place_holds-Delivers R servers leaves [] held s r = tt
  place_holds-Delivers R servers leaves (target ∷ targets) held s r =
      elim (Option-cases (last_of_org target.org servers)) [
        | inl nobody ↦
            rw (nobody, place_holds)
              (also-Delivers R target _ r.0
                (place_holds-Delivers R servers leaves targets held s r.1))
        | inr (server, owner) ↦
            let h = held_of w m leaves target server in
            let q =
              place w m h.hold_id (hold_amount w m server h.leaf) (join "cast_get to " (str target))
                s in
            elim (Result-cases q.0) [
              | inl (u, went) ↦
                  rw (owner, place_holds, went)
                    (also-Delivers R target _ r.0 (
                      place_holds-Delivers R servers leaves targets (insert (str target) h held) q.1
                        r.1))
              | inr (e, failed) ↦ elim (Bool-cases (is_short e)) [
                | inr k ↦ rw (owner, place_holds, failed, k) tt
                | inl k ↦
                    rw (owner, place_holds, failed, k)
                      (place_holds-Delivers R servers leaves targets held q.1 r.1)
              ]
            ]
      ]

  after_dispatch-trace :
      (held : Dict Held) (answer : Result EngineError (List Message)) (p : Plane)
      → (after_dispatch w m held answer p).1.trace ≡ p.trace
  after_dispatch-trace held (err e) p = refl
  after_dispatch-trace held (ok rs) p = refl

  module _ (P : Trace → Type 0) (R : AgentAddress → Type 0) (timeout : ℕ) (most : Option ℕ)
      (p : Plane) (before : P p.trace)
      (after : (targets : List AgentAddress)
        → All R targets
        → P (cast_asked m targets timeout most ∷ p.trace)) where
    dispatch-keeps :
        (held : Dict Held) (deliverable : List AgentAddress) (s : BrokerState)
        → All R deliverable
        → P
            (dispatch w m
              (record { held = held; deliverable = deliverable })
              timeout
              most
              (on_broker w p s)).1.trace
    dispatch-keeps held [] s r = before
    dispatch-keeps held (target ∷ targets) s r =
        subst P (sym (after_dispatch-trace held _ _)) (after (target ∷ targets) r)

    after_holds-keeps :
        (q : Result WalletFailure Placed × BrokerState)
        → Delivers R q.0
        → P (after_holds w m timeout most p q).1.trace
    after_holds-keeps (err e, s) r = before
    after_holds-keeps (ok placed, s) r = dispatch-keeps placed.held placed.deliverable s r

    -- A CAST-GET asks for nothing, or for its message to some of its targets.
    pub broker_cast_get-keeps :
        (targets : List AgentAddress)
        → All R targets
        → P (broker_cast_get w m targets timeout most p).1.trace
    unfolding broker_cast_get
    broker_cast_get-keeps targets r =
        let leaves = (list_leaves p.broker.redis.clock true p.broker.compute).0 in
        after_holds-keeps
          (place_holds w m (owning_servers w p.broker) leaves targets [] (listed w p.broker))
          (place_holds-Delivers R (owning_servers w p.broker) leaves targets [] (listed w p.broker)
            r)
