-- ===== src/Transport/Cache.antt =====
-- ahp/transport/cache.py: `ProtocolCache`, over keys that expire, without the prefix that all of them
-- have. A stored entry keeps beside its text of the target the address that it parses to, and the time
-- at which its key expires.
pub mod Reads
use agent_handshake_protocol.Prelude.{
  ℕ, zero, suc, ◌+◌, String, Bool, true, false, ◌&&◌, ◌==◌, Option, none, some, List, [], ◌∷◌, ltb,
  nat_beq, if◌then◌else◌,
}
use agent_handshake_protocol.Prelude.Exec.{Result, ok, err}
use agent_handshake_protocol.Prelude.Dict.{Dict, lookup, insert, erase}
use agent_handshake_protocol.Core.Address.{AgentAddress}
use agent_handshake_protocol.Core.Address.Text.{str}
use agent_handshake_protocol.Core.Pattern.{AddressPattern}
use agent_handshake_protocol.Core.Pattern
use agent_handshake_protocol.Engine.Message.{Message, Target, address, pattern, Body, ttl_of}

pub record CachedEntry : Type 0 where
  pub target_uri : String
  pub target : AgentAddress
  pub code : String
  pub response : Message

pub record Stored : Type 0 where
  pub entry : CachedEntry
  pub expires : ℕ

abbrev pub Cache : Type 0
Cache = Dict Stored

-- the loop over the items of `params`
unfoldable pub has_params : Dict String → AgentAddress → Bool
unfolding lookup
has_params [] target = true
has_params ((k, v) ∷ params) target = elim (lookup k target.params) [
  | none ↦ false
  | some u ↦ u == v && has_params params target
]

-- `CachedEntry.matches`; no params, or none given, ask for nothing
unfoldable pub matches : AddressPattern → Option (Dict String) → CachedEntry → Bool
unfolding Pattern.matches has_params
matches p none e = Pattern.matches p e.target
matches p (some params) e = Pattern.matches p e.target && has_params params e.target

-- `ttl_for`
abbrev pub ttl_for : AgentAddress → ℕ
ttl_for target = ttl_of target.lifecycle

pub data CacheError : Type 0 where
  pattern_target : CacheError

-- what is still there at a time
abbrev pub live : (now : ℕ) → Option Stored → Option Message
live now none = none
live now (some s) = if ltb now s.expires then some s.entry.response else none

-- `digest` is the SHA-256 of the JSON text of an address, a code and the digest of a body.
module _ (digest : (addr code : String) → Body → String) where
  -- `derive_key`, which is `Message.cache_key`, of a request to an address
  unfoldable pub key_of : Message → AgentAddress → String
  unfolding str
  key_of request target = digest (str target) request.code request.body

  -- `get`
  unfoldable pub get : (now : ℕ) → Message → Cache → Result CacheError (Option Message)
  unfolding key_of lookup
  get now request c = elim request.target [
    | pattern _ ↦ err pattern_target
    | address target ↦ ok (live now (lookup (key_of request target) c))
  ]

  -- `put`: whether it stored, and the cache
  unfoldable pub put : (now : ℕ) (request response : Message) → Cache → Bool × Cache
  unfolding key_of insert ttl_of
  put now request response c = elim request.target [
    | pattern _ ↦ (false, c)
    | address target ↦ elim (nat_beq (ttl_for target) 0) [
      | true ↦ (false, c)
      | false ↦ (
        true,
        insert (key_of request target)
            (record {
              entry = record {
                target_uri = str target;
                target = target;
                code = request.code;
                response = response;
              };
              expires = now + ttl_for target;
            })
            c,
      )
    ]
  ]

-- whether `invalidate` deletes what it finds under a key
abbrev pub dooms : (now : ℕ) → AddressPattern → Option (Dict String) → Option Stored → Bool
dooms now p params none = false
dooms now p params (some s) = ltb now s.expires && matches p params s.entry

-- the loop of `invalidate`, over the keys of the scan
unfoldable pub invalidate_loop :
    (now : ℕ) → AddressPattern → Option (Dict String) → List String → Cache → ℕ × Cache
unfolding lookup erase matches
invalidate_loop now p params [] c = (0, c)
invalidate_loop now p params (k ∷ keys) c = elim (dooms now p params (lookup k c)) [
  | false ↦ invalidate_loop now p params keys c
  | true ↦
      let (deleted, rest) = invalidate_loop now p params keys (erase k c) in (suc deleted, rest)
]

-- the keys of the scan
abbrev pub keys_of : Cache → List String
keys_of [] = []
keys_of ((k, _) ∷ c) = k ∷ keys_of c

-- `invalidate`
unfoldable pub invalidate : (now : ℕ) → AddressPattern → Option (Dict String) → Cache → ℕ × Cache
unfolding invalidate_loop
invalidate now p params c = invalidate_loop now p params (keys_of c) c

-- `clear`: how many keys are still there, and the cache
unfoldable pub clear : (now : ℕ) → Cache → ℕ × Cache
clear now [] = (0, [])
clear now ((_, s) ∷ c) =
    let (deleted, rest) = clear now c in
    if ltb now s.expires then (suc deleted, rest) else (deleted, rest)
