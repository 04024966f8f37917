-- ===== src/Engine/Dispatch.antt =====
-- ahp/engine/router.py: `ProtocolEngine`. The registry, the bus and the cache answer by what was
-- asked of them so far, and what they are asked is the state.
pub mod Gates
pub mod Registered
pub mod Cached
use agent_handshake_protocol.Prelude.{
  ℕ, String, Bool, true, false, not, ◌&&◌, ◌||◌, ◌==◌, Option, none, some, List, [], ◌∷◌, ◌++◌,
  if◌then◌else◌,
}
use agent_handshake_protocol.Prelude.Exec.{Exec, Result, ok, err, pure, lift, read, ◌>>=◌, ◌>>◌}
use agent_handshake_protocol.Prelude.Dict.{Dict, lookup}
use agent_handshake_protocol.Prelude.Lists.{filter, contains}
use agent_handshake_protocol.Core.Address.{AgentAddress}
use agent_handshake_protocol.Core.Pattern.{AddressPattern}
use agent_handshake_protocol.Core.Pattern
use agent_handshake_protocol.Core.Compatibility.{can_route}
use agent_handshake_protocol.Core.Compatibility
use agent_handshake_protocol.Core.Codes
use agent_handshake_protocol.Formats.{get_format}
use agent_handshake_protocol.Formats.Shape.{
  Format, is_turn_in_format, is_turn_legal, is_nil, legacy_session, turn_sequence,
}
use agent_handshake_protocol.Engine.Services.{
  EngineError, invalid_target_type, incompatible_target, unauthorized, format_violation, sent,
  asked, casted, cast_asked, subscribed, stored, invalidated, audited, Trace, Reply, count,
  response, responses, subscription, Run, Services, Broker, ProtocolEngine, call,
}
use agent_handshake_protocol.Engine.Scope.{ScopePolicy, is_allowed}
use agent_handshake_protocol.Engine.Scope
use agent_handshake_protocol.Engine.Message.{
  Message, Verb, send, send_get, cast, cast_get, cast_sub, invalidate, Target, address, pattern,
  Body, no_body, text, dict,
}

-- `_require_address`
abbrev pub require_address : Target → Result EngineError AgentAddress
require_address (address a) = ok a
require_address (pattern _) = err invalid_target_type

-- `if not ...: raise`
abbrev pub require : Bool → EngineError → Result EngineError (Unit {0})
require true x = ok tt
require false x = err x

-- `_check_compatibility`
abbrev pub check_compatibility :
    (source target : AgentAddress) (code : String) → Result EngineError (Unit {0})
check_compatibility source target code = require (can_route source target code) incompatible_target

-- the parameters that an INVALIDATE carries
abbrev pub params_of : Body → Option (Dict String)
params_of no_body = none
params_of (text _) = none
params_of (dict _ params) = params

-- does the active policy, if there is one, let the source reach the target?
abbrev pub in_scope : Option ScopePolicy → (source target : AgentAddress) (code : String) → Bool
in_scope none source target code = true
in_scope (some rules) source target code = is_allowed rules source target code

-- the second and the third check of `_check_format`; `none` lets the message pass
unfoldable pub check_turn : Format → Message → Option EngineError
unfolding is_turn_in_format is_turn_legal
check_turn f m = elim f.recipe_kind [
  | legacy_session ↦ none
  | turn_sequence ↦
      if not (is_turn_in_format f m.code)
      then some format_violation
      else if not (is_nil f.role_turn_permissions) && not (is_turn_legal f m.source.role m.code)
      then some format_violation
      else none
]

-- `_check_format`, of a message that declares the format `name`
unfoldable pub check_format : (name : String) → Message → Option EngineError
unfolding check_turn
check_format name m = elim (get_format name) [
  | none ↦ some format_violation
  | some f ↦ check_turn f m
]

module _ (e : ProtocolEngine) where
  -- `_check_scope`
  abbrev pub check_scope :
      (source target : AgentAddress) (code : String) → Result EngineError (Unit {0})
  check_scope source target code = require (in_scope e.scope source target code) unauthorized

  -- `_handle_send`, after its checks
  abbrev pub deliver : Message → AgentAddress → Run ℕ
  deliver m target t = elim (e.services.is_alive t target) [
    | false ↦ (ok 0, t)
    | true ↦ call (sent m) (λ u. e.services.send u m) t
  ]

  -- the two checks of a message to one agent
  abbrev pub check : Message → AgentAddress → Run (Unit {0})
  check m target = do
    lift (check_compatibility m.source target m.code)
    lift (check_scope m.source target m.code)

  -- `_handle_send`
  unfoldable pub handle_send : Message → Run ℕ
  handle_send m = do target ← lift (require_address m.target); check m target; deliver m target

  -- the dispatch of a SEND-GET, through the broker if there is one
  abbrev pub ask : Message → AgentAddress → ℕ → Run (Option Message)
  ask m target timeout = elim e.broker [
    | none ↦ call (asked m timeout) (λ t. e.services.send_get t m timeout)
    | some b ↦ b.send_get m target timeout
  ]

  -- `if response is not None: await self.cache.put(message, response)`
  abbrev pub keep : Message → Option Message → Run (Option Message)
  keep m none t = (ok none, t)
  keep m (some r) t = (ok (some r), stored m r ∷ t)

  -- `_handle_send_get` after its checks
  abbrev pub request : Message → AgentAddress → ℕ → Run (Option Message)
  request m target timeout t = elim (e.services.is_alive t target) [
    | false ↦ (ok none, t)
    | true ↦ (ask m target timeout >>= keep m) t
  ]

  -- `_handle_send_get`, when the cache has no answer
  abbrev pub fetch : Message → AgentAddress → ℕ → Run (Option Message)
  fetch m target timeout = do check m target; request m target timeout

  -- the lookup in the cache
  abbrev pub recall : Message → AgentAddress → ℕ → Run (Option Message)
  recall m target timeout t = elim (e.services.cached t m) [
    | some r ↦ (ok (some r), t)
    | none ↦ fetch m target timeout t
  ]

  -- `_handle_send_get`
  unfoldable pub handle_send_get : Message → ℕ → Run (Option Message)
  handle_send_get m timeout = do target ← lift (require_address m.target); recall m target timeout

  -- `_resolve_for_broadcast`
  unfoldable pub resolve_for_broadcast : Message → Trace → List AgentAddress
  unfolding Compatibility.filter_targets Scope.filter_targets
  resolve_for_broadcast m t = elim m.target [
    | address a ↦
        if not (e.services.is_alive t a)
        then []
        else if not (can_route m.source a m.code)
        then []
        else if not (in_scope e.scope m.source a m.code)
        then []
        else a ∷ []
    | pattern p ↦
        let candidates = Compatibility.filter_targets m.source (e.services.resolve t p) m.code in
        elim e.scope [
          | none ↦ candidates
          | some rules ↦ Scope.filter_targets rules m.source candidates m.code
        ]
  ]

  -- `_handle_cast`, once the targets are resolved
  abbrev pub cast_to : Message → List AgentAddress → Run ℕ
  cast_to m [] t = (ok 0, t)
  cast_to m (a ∷ rest) t = call (casted m (a ∷ rest)) (λ u. e.services.cast u m (a ∷ rest)) t

  -- `_handle_cast`
  unfoldable pub handle_cast : Message → Run ℕ
  handle_cast m t = cast_to m (resolve_for_broadcast m t) t

  -- `_handle_cast_get`, once the targets are resolved
  abbrev pub cast_get_to : Message → List AgentAddress → ℕ → Option ℕ → Run (List Message)
  cast_get_to m [] timeout max_responses t = (ok [], t)
  cast_get_to m (a ∷ rest) timeout max_responses t = elim e.broker [
    | none ↦
        call (cast_asked m (a ∷ rest) timeout max_responses)
          (λ u. e.services.cast_get u m (a ∷ rest) timeout max_responses) t
    | some b ↦ b.cast_get m (a ∷ rest) timeout max_responses t
  ]

  -- `_handle_cast_get`
  unfoldable pub handle_cast_get : Message → ℕ → Option ℕ → Run (List Message)
  handle_cast_get m timeout max_responses t =
      cast_get_to m (resolve_for_broadcast m t) timeout max_responses t

  -- the predicate of `_handle_cast_sub`; `same` compares two addresses by their texts
  abbrev pub observes : (same : AgentAddress → AgentAddress → Bool) → Message → Message → Bool
  observes same m seen = Codes.matches seen.code m.code && (elim m.target [
    | address exact ↦ elim seen.target [ address a ↦ same a exact | pattern _ ↦ false ]
    | pattern p ↦ elim seen.target [
      | address a ↦ Pattern.matches p a
      | pattern _ ↦ Pattern.matches p seen.source
    ]
  ])

  -- `_handle_invalidate`
  unfoldable pub handle_invalidate : Message → Run ℕ
  handle_invalidate m t = elim m.target [
    | address _ ↦ (err invalid_target_type, t)
    | pattern p ↦
        let params = params_of m.body in
        (ok (e.services.invalidate t p params), invalidated p params ∷ t)
  ]

  module _ (same : AgentAddress → AgentAddress → Bool) where
    -- the handler of a verb, with its keyword arguments
    abbrev pub dispatch_verb : Verb → Message → ℕ → Option ℕ → Run Reply
    dispatch_verb send m timeout max_responses = do n ← handle_send m; pure (count n)
    dispatch_verb send_get m timeout max_responses = do
      r ← handle_send_get m timeout
      pure (response r)
    dispatch_verb cast m timeout max_responses = do n ← handle_cast m; pure (count n)
    dispatch_verb cast_get m timeout max_responses = do
      rs ← handle_cast_get m timeout max_responses
      pure (responses rs)
    dispatch_verb cast_sub m timeout max_responses =
        λ t. (ok (subscription (observes same m)), subscribed m ∷ t)
    dispatch_verb invalidate m timeout max_responses = do n ← handle_invalidate m; pure (count n)

    abbrev pub dispatch : Message → ℕ → Option ℕ → Run Reply
    dispatch m = dispatch_verb m.verb m

    -- `_emit_message`, at the end of a dispatch
    abbrev pub emit : Message → Result EngineError Reply × Trace → Result EngineError Reply × Trace
    emit m (ok r, t) = elim e.audit [ true ↦ (ok r, audited m none ∷ t) | false ↦ (ok r, t) ]
    emit m (err x, t) = elim e.audit [ true ↦ (err x, audited m (some x) ∷ t) | false ↦ (err x, t) ]

    -- `handle`; a message that breaks its format is refused before the dispatch, and not audited
    unfoldable pub handle : Message → (timeout max_responses : Option ℕ) → Run Reply
    unfolding check_format
    handle m timeout max_responses t =
        let wait : ℕ = elim timeout [ none ↦ e.default_timeout | some n ↦ n ] in
        let dispatched = emit m (dispatch m wait max_responses t) in
        elim m.format [
          | none ↦ dispatched
          | some name ↦ elim (check_format name m) [ none ↦ dispatched | some x ↦ (err x, t) ]
        ]
