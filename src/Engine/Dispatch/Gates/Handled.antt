-- ===== src/Engine/Dispatch/Gates/Handled.antt =====
-- Nothing that `handle` asks of the bus passes the gates unchecked.
use agent_handshake_protocol.Prelude.{
  ℕ, ◌≡◌, inl, inr, Bool, true, Option, none, some, List, [], ◌∷◌, Option-cases, Bool-cases,
}
use agent_handshake_protocol.Prelude.Exec.{Result, ok, err, pure, bind-keeps, ◌>>=◌}
use agent_handshake_protocol.Prelude.Lists.{All}
use agent_handshake_protocol.Core.Address.{AgentAddress}
use agent_handshake_protocol.Engine.Services.{
  EngineError, ProtocolEngine, Broker, Trace, Reply, Run, count, response, responses,
}
use agent_handshake_protocol.Engine.Message.{
  Message, Verb, send, send_get, cast, cast_get, cast_sub, invalidate,
}
use agent_handshake_protocol.Engine.Dispatch.{
  check_format, resolve_for_broadcast, handle_send, handle_send_get, handle_cast, handle_cast_get,
  handle_invalidate, dispatch, dispatch_verb, cast_to, cast_get_to, handle, emit,
}
use agent_handshake_protocol.Engine.Dispatch.Gates.{reachable, Target-cases}
use agent_handshake_protocol.Engine.Dispatch.Gates.Guarded.{
  AllGuarded, KeepsGuard, resolved, handle_send-guards, handle_send_get-guards,
}

module _ (e : ProtocolEngine) (broker_guards : (b : Broker) → e.broker ≡ some b → KeepsGuard e b)
    (m : Message) where
  cast_some :
      (targets : List AgentAddress) (t : Trace)
      → All (λ a. reachable e m a ≡ true) targets
      → AllGuarded e t
      → AllGuarded e (cast_to e m targets t).1
  cast_some [] t r g = g
  cast_some (a ∷ rest) t r g = (r, g)

  handle_cast-guards : (t : Trace) → AllGuarded e t → AllGuarded e (handle_cast e m t).1
  unfolding handle_cast
  handle_cast-guards t g = cast_some (resolve_for_broadcast e m t) t (resolved e m t) g

  cast_get_some :
      (targets : List AgentAddress) (n : ℕ) (k : Option ℕ) (t : Trace)
      → All (λ a. reachable e m a ≡ true) targets
      → AllGuarded e t
      → AllGuarded e (cast_get_to e m targets n k t).1
  cast_get_some [] n k t r g = g
  cast_get_some (a ∷ rest) n k t r g = elim (Option-cases e.broker) [
    | inl no_broker ↦ rw no_broker (r, g)
    | inr (b, wired) ↦ rw wired ((broker_guards b wired).cast_get m (a ∷ rest) n k t r g)
  ]

  handle_cast_get-guards :
      (n : ℕ) (k : Option ℕ) (t : Trace)
      → AllGuarded e t
      → AllGuarded e (handle_cast_get e m n k t).1
  unfolding handle_cast_get
  handle_cast_get-guards n k t g =
      cast_get_some (resolve_for_broadcast e m t) n k t (resolved e m t) g

  handle_invalidate-guards : (t : Trace) → AllGuarded e t → AllGuarded e (handle_invalidate e m t).1
  unfolding handle_invalidate
  handle_invalidate-guards t g = elim (Target-cases m.target) [
    | inl (a, one) ↦ rw one g
    | inr (p, many) ↦ rw many (tt, g)
  ]

  -- the reply of a handler
  reply-guards :
      {A : Type 0} (run : Run A) (k : A → Reply) (t : Trace)
      → AllGuarded e (run t).1
      → AllGuarded e ((run >>= (λ a. pure (k a))) t).1
  reply-guards run k t g = bind-keeps (AllGuarded e) run (λ a. pure (k a)) t g (λ a. g)

  dispatch-guards :
      (same : AgentAddress → AgentAddress → Bool) (v : Verb) (n : ℕ) (k : Option ℕ) (t : Trace)
      → AllGuarded e t
      → AllGuarded e (dispatch_verb e same v m n k t).1
  dispatch-guards same send n k t g =
      reply-guards (handle_send e m) count t (handle_send-guards e broker_guards m t g)
  dispatch-guards same send_get n k t g =
      reply-guards (handle_send_get e m n) response t
        (handle_send_get-guards e broker_guards m n t g)
  dispatch-guards same cast n k t g =
      reply-guards (handle_cast e m) count t (handle_cast-guards t g)
  dispatch-guards same cast_get n k t g =
      reply-guards (handle_cast_get e m n k) responses t (handle_cast_get-guards n k t g)
  dispatch-guards same cast_sub n k t g = (tt, g)
  dispatch-guards same invalidate n k t g =
      reply-guards (handle_invalidate e m) count t (handle_invalidate-guards t g)

  emit-guards :
      (same : AgentAddress → AgentAddress → Bool) (r : Result EngineError Reply × Trace)
      → AllGuarded e r.1
      → AllGuarded e (emit e same m r).1
  emit-guards same (ok r, t) g = elim (Bool-cases e.audit) [
    | inl audited ↦ rw audited (tt, g)
    | inr silent ↦ rw silent g
  ]
  emit-guards same (err x, t) g = elim (Bool-cases e.audit) [
    | inl audited ↦ rw audited (tt, g)
    | inr silent ↦ rw silent g
  ]

-- Whatever message is handled, with whatever answers, every message that the bus is asked to carry
-- goes to agents that its code can be routed to and that the policy lets its source reach, if this
-- holds of the messages before and if a wired broker asks for nothing else.
pub handle-guards :
    (e : ProtocolEngine) (same : AgentAddress → AgentAddress → Bool) (m : Message)
    (timeout max_responses : Option ℕ) (t : Trace)
    → ((b : Broker) → e.broker ≡ some b → KeepsGuard e b)
    → AllGuarded e t
    → AllGuarded e (handle e same m timeout max_responses t).1
unfolding handle
handle-guards e same m timeout k t broker_guards g =
    let wait : ℕ = elim timeout [ none ↦ e.default_timeout | some n ↦ n ] in
    let dispatched : AllGuarded e (emit e same m (dispatch e same m wait k t)).1 =
      emit-guards e broker_guards m same (dispatch e same m wait k t)
        (dispatch-guards e broker_guards m same m.verb wait k t g) in
    elim (Option-cases m.format) [
      | inl untagged ↦ rw (handle, untagged) dispatched
      | inr (name, tagged) ↦ elim (Option-cases (check_format name m)) [
        | inl legal ↦ rw (handle, tagged) (rw legal dispatched)
        | inr (x, illegal) ↦ rw (handle, tagged) (rw illegal g)
      ]
    ]
