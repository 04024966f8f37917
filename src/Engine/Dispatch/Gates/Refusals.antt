-- ===== src/Engine/Dispatch/Gates/Refusals.antt =====
-- What the engine does with a message that may not reach its target.
use agent_handshake_protocol.Prelude.{
  ℕ, ◌≡◌, refl, ap, ◌∙◌, inl, inr, false, none, some, [], arith, Bool-cases, if◌then◌else◌,
}
use agent_handshake_protocol.Prelude.Exec.{ok, err, lift, ◌>>=◌, ◌>>◌}
use agent_handshake_protocol.Prelude.Lists.{filter}
use agent_handshake_protocol.Core.Address.{AgentAddress}
use agent_handshake_protocol.Core.Compatibility.{can_route}
use agent_handshake_protocol.Engine.Services.{
  EngineError, incompatible_target, unauthorized, ProtocolEngine, Trace, Run,
}
use agent_handshake_protocol.Engine.Message.{Message, address}
use agent_handshake_protocol.Engine.Dispatch.{
  require_address, in_scope, check, deliver, request, recall, resolve_for_broadcast, handle_send,
  handle_send_get, handle_cast, cast_to,
}
use agent_handshake_protocol.Engine.Dispatch.Gates.{reachable, named_by, resolve_for_broadcast_lem}

-- the error of a message that may not reach its target
abbrev pub refusal : Message → AgentAddress → EngineError
refusal m a = if can_route m.source a m.code then unauthorized else incompatible_target

module _ (e : ProtocolEngine) (m : Message) (a : AgentAddress) (t : Trace)
    (barred : reachable e m a ≡ false) where
  check_barred : {A : Type 0} (k : Run A) → (do check e m a; k) t ≡ (err (refusal m a), t)
  check_barred k = elim (Bool-cases (can_route m.source a m.code)) [
    | inr unroutable ↦ rw unroutable refl
    | inl routed ↦
        let closed : in_scope e.scope m.source a m.code ≡ false = ground arith in
        rw (routed, closed) refl
  ]

  nobody : m.target ≡ address a → resolve_for_broadcast e m t ≡ []
  unfolding filter
  nobody one =
      resolve_for_broadcast_lem e m t
      ∙ ap (λ g. filter (reachable e m) (named_by e g t)) one
      ∙ (elim (Bool-cases (e.services.is_alive t a)) [
        | inl alive ↦ rw (alive, barred) refl
        | inr dead ↦ rw dead refl
      ])

pub passed :
    {A : Type 0} (e : ProtocolEngine) (m : Message) (a : AgentAddress) (t : Trace)
    → m.target ≡ address a
    → (k : AgentAddress → Run A) → (lift (require_address m.target) >>= k) t ≡ k a t
passed e m a t one k = ap (λ g. (lift (require_address g) >>= k) t) one

-- A message to an agent that it may not reach is refused by a SEND with an error, which names the
-- policy only if the code could be routed, and dropped by a CAST; neither asks for anything.
pub handle_send-refused :
    (e : ProtocolEngine) (m : Message) (a : AgentAddress) (t : Trace)
    → m.target ≡ address a
    → reachable e m a ≡ false
    → (handle_send e m t ≡ (err (refusal m a), t)) × (handle_cast e m t ≡ (ok 0, t))
unfolding handle_send handle_cast
handle_send-refused e m a t one barred = (
  passed e m a t one (λ b. do check e m b; deliver e m b)
      ∙ check_barred e m a t barred (deliver e m a),
  ap (λ targets. cast_to e m targets t) (nobody e m a t barred one),
)

-- A SEND-GET to an agent that it may not reach is refused in the same way, but only when the cache
-- has no answer: an answer that is cached is given whatever the code and the policy say.
pub handle_send_get-refused :
    (e : ProtocolEngine) (m : Message) (a : AgentAddress) (n : ℕ) (t : Trace)
    → m.target ≡ address a
    → reachable e m a ≡ false
    → (e.services.cached t m ≡ none → handle_send_get e m n t ≡ (err (refusal m a), t))
      × ((r : Message)
          → e.services.cached t m ≡ some r
          → handle_send_get e m n t ≡ (ok (some r), t))
unfolding handle_send_get
handle_send_get-refused e m a n t one barred = (
  λ miss.
      passed e m a t one (λ b. recall e m b n)
      ∙ rw (recall, miss) (check_barred e m a t barred (request e m a n)),
  λ r hit. passed e m a t one (λ b. recall e m b n) ∙ rw (recall, hit) refl,
)
