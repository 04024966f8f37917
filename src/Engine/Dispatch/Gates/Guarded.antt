-- ===== src/Engine/Dispatch/Gates/Guarded.antt =====
-- Nothing passes the engine that the code or the policy keeps from its target.
use agent_handshake_protocol.Prelude.{
  ℕ, ◌≡◌, refl, ap, sym, subst, inl, inr, Bool, true, false, Option, none, some, List, [], ◌∷◌,
  arith, Bool-cases, Option-cases,
}
use agent_handshake_protocol.Prelude.Exec.{ok, ok-injective, lift-keeps, bind-keeps, ◌>>◌}
use agent_handshake_protocol.Prelude.Lists.{filter, All}
use agent_handshake_protocol.Core.Address.{AgentAddress}
use agent_handshake_protocol.Core.Compatibility.{can_route}
use agent_handshake_protocol.Engine.Services.{
  EngineError, ProtocolEngine, Broker, Run, Trace, Call, sent, asked, casted, cast_asked,
  subscribed, stored, invalidated, audited,
}
use agent_handshake_protocol.Engine.Message.{Message, Target, address, pattern}
use agent_handshake_protocol.Engine.Dispatch.{
  require_address, require, check, deliver, ask, keep, request, recall, in_scope,
  resolve_for_broadcast, handle_send, handle_send_get,
}
use agent_handshake_protocol.Engine.Dispatch.Gates.{reachable, named, resolve_for_broadcast_lem}

-- a message to one agent, which it may reach
abbrev pub Reaches : ProtocolEngine → Message → Type 0
Reaches e m = (a : AgentAddress) × (m.target ≡ address a) × (reachable e m a ≡ true)

-- what may be asked of the bus
abbrev pub IsGuarded : ProtocolEngine → Call → Type 0
IsGuarded e (sent m) = Reaches e m
IsGuarded e (asked m _) = Reaches e m
IsGuarded e (casted m targets) = All (λ a. reachable e m a ≡ true) targets
IsGuarded e (cast_asked m targets _ _) = All (λ a. reachable e m a ≡ true) targets
IsGuarded e (subscribed _) = Unit
IsGuarded e (stored _ _) = Unit
IsGuarded e (invalidated _ _) = Unit
IsGuarded e (audited _ _) = Unit

abbrev pub AllGuarded : ProtocolEngine → Trace → Type 0
AllGuarded e t = All (IsGuarded e) t

-- a broker that asks nothing else of the bus, once a message has passed the gates
pub record KeepsGuard (e : ProtocolEngine) (b : Broker) : Type 0 where
  pub send_get :
      (m : Message) (a : AgentAddress) (n : ℕ) (t : Trace)
      → m.target ≡ address a
      → reachable e m a ≡ true
      → All (IsGuarded e) t
      → All (IsGuarded e) (b.send_get m a n t).1
  pub cast_get :
      (m : Message) (targets : List AgentAddress) (n : ℕ) (k : Option ℕ) (t : Trace)
      → All (λ a. reachable e m a ≡ true) targets
      → All (IsGuarded e) t
      → All (IsGuarded e) (b.cast_get m targets n k t).1

All-filter : {A : Type 0} (p : A → Bool) (xs : List A) → All (λ x. p x ≡ true) (filter p xs)
unfolding filter
All-filter p [] = tt
All-filter p (x ∷ xs) = elim (Bool-cases (p x)) [
  | inl e ↦ rw (filter, e) (e, All-filter p xs)
  | inr e ↦ rw (filter, e) (All-filter p xs)
]

pub resolved :
    (e : ProtocolEngine) (m : Message) (t : Trace)
    → All (λ a. reachable e m a ≡ true) (resolve_for_broadcast e m t)
resolved e m t =
    subst (λ l. All (λ a. reachable e m a ≡ true) l) (sym (resolve_for_broadcast_lem e m t))
      (All-filter (reachable e m) (named e m t))

address_of : (g : Target) (a : AgentAddress) → require_address g ≡ ok a → g ≡ address a
address_of (address b) a h = ap address (ok-injective h)
address_of (pattern p) a h = cc

required : (b : Bool) (x : EngineError) {u : Unit {0}} → require b x ≡ ok u → b ≡ true
required true x h = refl
required false x h = cc

module _ (e : ProtocolEngine) (broker_guards : (b : Broker) → e.broker ≡ some b → KeepsGuard e b)
    (m : Message) where
  -- once both checks have passed, the message may reach its target
  check-guards :
      {A : Type 0} (a : AgentAddress) (k : Run A) (t : Trace)
      → AllGuarded e t
      → (reachable e m a ≡ true → AllGuarded e (k t).1)
      → AllGuarded e ((do check e m a; k) t).1
  check-guards a k t g h = elim (Bool-cases (can_route m.source a m.code)) [
    | inr barred ↦ rw barred g
    | inl routed ↦ elim (Bool-cases (in_scope e.scope m.source a m.code)) [
      | inr barred ↦ rw (routed, barred) g
      | inl scoped ↦ rw (routed, scoped) (h (ground arith))
    ]
  ]

  deliver-guards :
      (a : AgentAddress) (t : Trace)
      → m.target ≡ address a
      → reachable e m a ≡ true
      → AllGuarded e t
      → AllGuarded e (deliver e m a t).1
  deliver-guards a t one r g = elim (Bool-cases (e.services.is_alive t a)) [
    | inr dead ↦ rw (deliver, dead) g
    | inl alive ↦ rw (deliver, alive) ((a, one, r), g)
  ]

  pub handle_send-guards : (t : Trace) → AllGuarded e t → AllGuarded e (handle_send e m t).1
  unfolding handle_send
  handle_send-guards t g =
      lift-keeps (AllGuarded e) (require_address m.target) (λ a. do check e m a; deliver e m a) t g
        λ a one.
          check-guards a (deliver e m a) t g λ r. deliver-guards a t (address_of m.target a one) r g

  keep-guards : (r : Option Message) (t : Trace) → AllGuarded e t → AllGuarded e (keep e m r t).1
  keep-guards none t g = g
  keep-guards (some r) t g = (tt, g)

  ask-guards :
      (a : AgentAddress) (n : ℕ) (t : Trace)
      → m.target ≡ address a
      → reachable e m a ≡ true
      → AllGuarded e t
      → AllGuarded e (ask e m a n t).1
  ask-guards a n t one r g = elim (Option-cases e.broker) [
    | inl no_broker ↦ rw no_broker ((a, one, r), g)
    | inr (b, wired) ↦ rw wired ((broker_guards b wired).send_get m a n t one r g)
  ]

  request-guards :
      (a : AgentAddress) (n : ℕ) (t : Trace)
      → m.target ≡ address a
      → reachable e m a ≡ true
      → AllGuarded e t
      → AllGuarded e (request e m a n t).1
  request-guards a n t one r g = elim (Bool-cases (e.services.is_alive t a)) [
    | inr dead ↦ rw (request, dead) g
    | inl alive ↦
        rw (request, alive)
          (bind-keeps (AllGuarded e) (ask e m a n) (keep e m) t (ask-guards a n t one r g)
            (λ reply. keep-guards reply _ (ask-guards a n t one r g)))
  ]

  recall-guards :
      (a : AgentAddress) (n : ℕ) (t : Trace)
      → m.target ≡ address a
      → AllGuarded e t
      → AllGuarded e (recall e m a n t).1
  recall-guards a n t one g = elim (Option-cases (e.services.cached t m)) [
    | inr (r, hit) ↦ rw (recall, hit) g
    | inl miss ↦
        rw (recall, miss) (check-guards a (request e m a n) t g λ r. request-guards a n t one r g)
  ]

  pub handle_send_get-guards :
      (n : ℕ) (t : Trace) → AllGuarded e t → AllGuarded e (handle_send_get e m n t).1
  unfolding handle_send_get
  handle_send_get-guards n t g =
      lift-keeps (AllGuarded e) (require_address m.target) (λ a. recall e m a n) t g
        λ a one. recall-guards a n t (address_of m.target a one) g
