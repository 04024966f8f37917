-- ===== src/Engine/Pipeline/Guards.antt =====
-- ahp/engine/router.py: the engine over its own pipelines, `_broker_send_get` and `_broker_cast_get`.
-- The state of the broker may depend in any way on what has been asked before the call.
use mathlib.Core.Option.{some-injective}
use agent_handshake_protocol.Prelude.{
  ℕ, String, ◌≡◌, refl, sym, subst, Bool, true, Option, none, some,
}
use agent_handshake_protocol.Prelude.Exec.{Result, ok, err}
use agent_handshake_protocol.Core.Address.{AgentAddress}
use agent_handshake_protocol.Economy.WalletClient.{WalletFailure}
use agent_handshake_protocol.Broker.Facade.{BrokerState}
use agent_handshake_protocol.Engine.Message.{Message}
use agent_handshake_protocol.Engine.Services.{EngineError, transport, ProtocolEngine, Broker, Trace}
use agent_handshake_protocol.Engine.Dispatch.{handle}
use agent_handshake_protocol.Engine.Dispatch.Gates.{reachable}
use agent_handshake_protocol.Engine.Dispatch.Gates.Guarded.{AllGuarded, KeepsGuard}
use agent_handshake_protocol.Engine.Dispatch.Gates.Handled.{handle-guards}
use agent_handshake_protocol.Engine.Pipeline.{
  PipelineError, from_engine, from_wallet, Plane, Wiring, broker_send_get,
}
use agent_handshake_protocol.Engine.Pipeline.CastGet.{broker_cast_get}
use agent_handshake_protocol.Engine.Pipeline.Asks.{broker_send_get-keeps, broker_cast_get-keeps}

-- The pipelines as the engine calls them: what is kept of a call is what it asked of the bus.
module _ (w : Wiring) (state : Trace → BrokerState) (describe : WalletFailure → String) where
  abbrev pub plane_at : Trace → Plane
  plane_at t = record { trace = t; broker = state t }

  abbrev pub failure : PipelineError → EngineError
  failure (from_engine e) = e
  failure (from_wallet e) = transport (describe e)

  abbrev pub as_run : {A : Type 0} → Result PipelineError A × Plane → Result EngineError A × Trace
  as_run (ok a, p) = (ok a, p.trace)
  as_run (err e, p) = (err (failure e), p.trace)

  -- `_broker_send_get` and `_broker_cast_get` of the engine
  abbrev pub pipelines : Broker
  pipelines = record {
    send_get = λ m target timeout t. as_run (broker_send_get w m target timeout (plane_at t));
    cast_get = λ m targets timeout max_responses t.
        as_run (broker_cast_get w m targets timeout max_responses (plane_at t));
  }

  as_run-trace : {A : Type 0} (q : Result PipelineError A × Plane) → (as_run q).1 ≡ q.1.trace
  as_run-trace (ok a, p) = refl
  as_run-trace (err e, p) = refl

-- an engine with no broker, or with one in the states that are given
abbrev pub over_pipelines :
    Wiring
    → (WalletFailure → String)
    → Option (Trace → BrokerState)
    → ProtocolEngine
    → ProtocolEngine
over_pipelines w describe none e = record e { services = w.services; broker = none }
over_pipelines w describe (some state) e = record e {
  services = w.services;
  broker = some (pipelines w state describe);
}

-- The pipelines ask nothing else of the bus.
pipelines-KeepsGuard :
    (w : Wiring) (state : Trace → BrokerState) (describe : WalletFailure → String)
    (e : ProtocolEngine)
    → KeepsGuard e (pipelines w state describe)
pipelines-KeepsGuard w state describe e = record {
  send_get = λ m a n t one r g.
      subst (AllGuarded e)
        (sym
          (as_run-trace w state describe (broker_send_get w m a n (plane_at w state describe t))))
        (broker_send_get-keeps w m (AllGuarded e) a n (plane_at w state describe t) g
          ((a, one, r), g));
  cast_get = λ m targets n k t r g.
      subst (AllGuarded e)
        (sym (
          as_run-trace w state describe
            (broker_cast_get w m targets n k (plane_at w state describe t))))
        (broker_cast_get-keeps w m (AllGuarded e) (λ a. reachable e m a ≡ true) n k
          (plane_at w state describe t) g (λ sent reached. (reached, g)) targets r);
}

-- Whatever message is handled, with whatever answers of the bus, and whether the engine has no broker
-- or sends its requests through the broker's pipelines, in whatever state: every message that the bus
-- is asked to carry goes to agents that its code can be routed to and that the policy lets its source
-- reach, if this holds of the messages before.
pub handle-IsGuarded :
    (w : Wiring) (describe : WalletFailure → String) (broker : Option (Trace → BrokerState))
    (e : ProtocolEngine) (same : AgentAddress → AgentAddress → Bool) (m : Message)
    (timeout max_responses : Option ℕ) (t : Trace)
    → AllGuarded (over_pipelines w describe broker e) t
    → AllGuarded
        (over_pipelines w describe broker e)
        (handle (over_pipelines w describe broker e) same m timeout max_responses t).1
handle-IsGuarded w describe none e same m timeout k t g =
    handle-guards (over_pipelines w describe none e) same m timeout k t (λ b wired. cc wired) g
handle-IsGuarded w describe (some state) e same m timeout k t g =
    let wired = over_pipelines w describe (some state) e in
    handle-guards wired same m timeout k t
      (λ b is.
        subst (KeepsGuard wired) (some-injective _ _ is)
          (pipelines-KeepsGuard w state describe wired))
      g
