-- ===== src/Engine/Message.antt =====
-- ahp/core/message.py: the envelope of a message and its validation. A body is given by what the
-- engine reads of it.
use agent_handshake_protocol.Prelude.{
  ℕ, String, Bool, true, false, ◌&&◌, Option, none, some, [], ◌∷◌, if◌then◌else◌,
}
use agent_handshake_protocol.Prelude.Int.{ℤ, pos, negsuc}
use agent_handshake_protocol.Prelude.Exec.{Result, ok, err}
use agent_handshake_protocol.Prelude.Dict.{Dict, lookup}
use agent_handshake_protocol.Prelude.Text.{is_empty}
use agent_handshake_protocol.Core.Address.{AgentAddress}
use agent_handshake_protocol.Core.Pattern.{AddressPattern}

-- VALID_VERBS
pub data Verb : Type 0 where
  send send_get cast cast_get cast_sub invalidate : Verb

pub data Target : Type 0 where
  address : AgentAddress → Target
  pattern : AddressPattern → Target

-- no body, a text, or a dict: the texts in it, and its entry "params" where that is a dict
pub data Body : Type 0 where
  no_body : Body
  text : String → Body
  dict : Dict String → Option (Dict String) → Body

pub data MessageError : Type 0 where
  pattern_target empty_code empty_thread negative_ttl : MessageError

pub record Message : Type 0 where
  pub source : AgentAddress
  pub target : Target
  pub verb : Verb
  pub code : String
  pub thread : String
  pub body : Body
  pub timestamp : ℕ
  pub ttl : ℕ
  pub reply_to : Option String
  pub message_id : String
  pub format : Option String

-- LIFECYCLE_TTL
abbrev pub lifecycle_ttl : Dict ℕ
lifecycle_ttl =
    ("longterm", 86_400) ∷ ("session", 3_600) ∷ ("ephemeral", 0) ∷ ("stale-ok", 604_800) ∷ []

-- `LIFECYCLE_TTL.get(lifecycle, 0)`
unfoldable pub ttl_of : String → ℕ
unfolding lookup
ttl_of lifecycle = elim (lookup lifecycle lifecycle_ttl) [ none ↦ 0 | some n ↦ n ]

-- `verb in _POINT_TO_POINT_VERBS`
abbrev pub point_to_point : Verb → Bool
point_to_point send = true
point_to_point send_get = true
point_to_point _ = false

-- `is_broadcast`
abbrev pub is_pattern : Target → Bool
is_pattern (address _) = false
is_pattern (pattern _) = true

-- `expects_response`
abbrev pub expects_response : Verb → Bool
expects_response send_get = true
expects_response cast_get = true
expects_response _ = false

-- the ttl that `__post_init__` sets
abbrev pub settled_ttl : Option ℤ → String → Result MessageError ℕ
settled_ttl none lifecycle = ok (ttl_of lifecycle)
settled_ttl (some (pos n)) lifecycle = ok n
settled_ttl (some (negsuc n)) lifecycle = err negative_ttl

-- the checks of `__post_init__` after those of the verb and the target
unfoldable pub checked : Message → (ttl : Option ℤ) → Result MessageError Message
unfolding ttl_of is_empty
checked m ttl =
    if is_empty m.code
    then err empty_code
    else if is_empty m.thread
    then err empty_thread
    else elim (settled_ttl ttl m.source.lifecycle) [
      | err e ↦ err e
      | ok n ↦ ok (record m { ttl = n })
    ]

-- `Message.__post_init__`, of a message and the ttl that was given
unfoldable pub post_init : Message → (ttl : Option ℤ) → Result MessageError Message
unfolding checked
post_init m ttl =
    if point_to_point m.verb && is_pattern m.target then err pattern_target else checked m ttl
