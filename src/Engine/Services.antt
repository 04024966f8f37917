-- ===== src/Engine/Services.antt =====
-- ahp/engine/router.py: what `ProtocolEngine` uses, as its interface: the registry, the bus and the
-- cache (ahp/registry, ahp/transport), and a broker, which stands for its two pipelines; and
-- ahp/engine/errors.py.
use agent_handshake_protocol.Prelude.{ℕ, String, Bool, Option, List, ◌∷◌}
use agent_handshake_protocol.Prelude.Exec.{Exec, Result}
use agent_handshake_protocol.Prelude.Dict.{Dict}
use agent_handshake_protocol.Core.Address.{AgentAddress}
use agent_handshake_protocol.Core.Pattern.{AddressPattern}
use agent_handshake_protocol.Engine.Scope.{ScopePolicy}
use agent_handshake_protocol.Engine.Message.{Message}

pub data EngineError : Type 0 where
  invalid_target_type incompatible_target unauthorized format_violation : EngineError
  transport : String → EngineError

-- what the engine has asked of the bus, the cache and the audit sink
pub data Call : Type 0 where
  sent : Message → Call
  asked : Message → (timeout : ℕ) → Call
  casted : Message → List AgentAddress → Call
  cast_asked : Message → List AgentAddress → (timeout : ℕ) → (max_responses : Option ℕ) → Call
  subscribed : Message → Call
  stored : (request response : Message) → Call
  invalidated : AddressPattern → Option (Dict String) → Call
  audited : Message → (error : Option EngineError) → Call

-- the calls so far, the last one first
abbrev pub Trace : Type 0
Trace = List Call

pub data Reply : Type 0 where
  count : ℕ → Reply
  response : Option Message → Reply
  responses : List Message → Reply
  subscription : (Message → Bool) → Reply

abbrev pub Run : Type 0 → Type 0
Run A = Exec Trace EngineError A

-- The registry, the bus and the cache, as the engine uses them.
pub record Services : Type 0 where
  pub is_alive : Trace → AgentAddress → Bool
  pub resolve : Trace → AddressPattern → List AgentAddress
  pub cached : Trace → Message → Option Message
  pub send : Trace → Message → Result EngineError ℕ
  pub send_get : Trace → Message → ℕ → Result EngineError (Option Message)
  pub cast : Trace → Message → List AgentAddress → Result EngineError ℕ
  pub cast_get :
      Trace → Message → List AgentAddress → ℕ → Option ℕ → Result EngineError (List Message)
  pub invalidate : Trace → AddressPattern → Option (Dict String) → ℕ

-- `_broker_send_get` and `_broker_cast_get`
pub record Broker : Type 0 where
  pub send_get : Message → AgentAddress → ℕ → Run (Option Message)
  pub cast_get : Message → List AgentAddress → ℕ → Option ℕ → Run (List Message)

-- `ProtocolEngine.__init__`
pub record ProtocolEngine : Type 0 where
  pub services : Services
  pub default_timeout : ℕ
  pub scope : Option ScopePolicy
  pub audit : Bool
  pub broker : Option Broker

-- a call, and its answer
abbrev pub call : {A : Type 0} → Call → (Trace → Result EngineError A) → Run A
call c answer t = (answer t, c ∷ t)
