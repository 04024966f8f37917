-- ===== src/Tests/Transport.antt =====
-- The cache and the threads at concrete inputs.
use Prim.Native.String.{◌++◌ as join}
use agent_handshake_protocol.Prelude.{
  ◌+◌, String, ◌≡◌, refl, ap, subst, ◌||◌, ◌==◌, false, none, some, [], ◌∷◌, ◌++◌, ltb, nat_beq,
  arith, if◌then◌else◌,
}
use agent_handshake_protocol.Prelude.Dict.{lookup}
use agent_handshake_protocol.Prelude.Exec.{ok}
use agent_handshake_protocol.Prelude.Lists.{filter}
use agent_handshake_protocol.Prelude.Text.{is_empty}
use agent_handshake_protocol.Core.Address.Text.{str}
use agent_handshake_protocol.Core.Pattern.{AddressPattern}
use agent_handshake_protocol.Core.Pattern
use agent_handshake_protocol.Engine.Threads.{
  Threads, create, is_closed, append, get_history, is_participant, is_shown,
}
use agent_handshake_protocol.Engine.Threads.History.{append-history, create-is_closed}
use agent_handshake_protocol.Transport.Cache.{
  Cache, ttl_for, live, key_of, get, put, matches, invalidate,
}
use agent_handshake_protocol.Transport.Cache.Reads.{get-put, invalidate_reads}
use agent_handshake_protocol.Tests.Core.{analyst, operator, finance}
use agent_handshake_protocol.Engine.Message.{Message, Body, address, pattern, text, no_body, ttl_of}
use agent_handshake_protocol.Engine.Services.{Trace, stored, invalidated, audited}
use agent_handshake_protocol.Engine.Dispatch.{handle_send_get}
use agent_handshake_protocol.Engine.Dispatch.Cached.{over_cache, served_from_cache}
use agent_handshake_protocol.Tests.Engine.{claim, rhetor, engine}

-- any digest of an address, a code and a body
abbrev pub digest : (addr code : String) → Body → String
digest addr code no_body = join addr code
digest addr code (text s) = join addr (join code s)
digest addr code _ = addr

-- the cached answer to the claim, until 3607
abbrev pub cache : Cache
cache =
    (
      "k1",
      record {
        entry = record {
          target_uri = "tifin.analyst.finance.risk.sj.session.a1";
          target = analyst;
          code = "turn.claim";
          response = claim;
        };
        expires = 3607;
      },
    )
    ∷ []

get-put_example : get digest 3000 claim (put digest 7 claim claim []).1 ≡ (
    if nat_beq (ttl_for analyst) 0
    then get digest 3000 claim []
    else if key_of digest claim analyst == key_of digest claim analyst
    then ok (if ltb 3000 (7 + ttl_for analyst) then some claim else none)
    else get digest 3000 claim [])
get-put_example = get-put digest 7 3000 claim claim claim analyst analyst [] refl refl

invalidate_reads_example :
    ((k : String)
      → live 30 (lookup k (invalidate 20 finance none cache).1) ≡ elim (lookup k cache) [
        | none ↦ none
        | some s ↦ if matches finance none s.entry then none else live 30 (some s)
      ])
    × (invalidate 20 finance none (invalidate 20 finance none cache).1
        ≡ (0, (invalidate 20 finance none cache).1))
invalidate_reads_example = invalidate_reads 20 finance none 30 cache (omega arith)

-- one thread, which was closed
abbrev pub threads : Threads
threads = record {
  metas =
      ("t1", record { topic = "risk"; initiator = analyst; created_at = 1; closed_at = some 5 })
      ∷ [];
  participants = [];
  streams = [];
}

append-history_example :
    (get_history "thread-1" (some "j") (append "t1" claim threads) ≡ (
      if "thread-1" == "thread-1"
      then get_history "thread-1" (some "j") threads ++ filter (is_shown (some "j")) (claim ∷ [])
      else get_history "thread-1" (some "j") threads))
    × (is_participant "thread-1" rhetor (append "t1" claim threads) ≡ (
        if "t1" == "thread-1"
        then (str rhetor == str rhetor) || is_participant "thread-1" rhetor threads
        else is_participant "thread-1" rhetor threads))
append-history_example = append-history "t1" "thread-1" (some "j") claim rhetor threads

create-is_closed_example :
    ((create 9 "risk" "0a" "Risk" operator (some "t1") threads).0
      ≡ ok (record {
        thread_id = "t1";
        topic = "Risk";
        initiator = operator;
        created_at = 9;
        closed_at = none;
      }))
    × (is_closed "t1" (create 9 "risk" "0a" "Risk" operator (some "t1") threads).1
        ≡ is_closed "t1" threads)
unfolding is_empty
create-is_closed_example = create-is_closed 9 "risk" "0a" "Risk" "t1" operator threads refl refl

-- a session of the operator that asks what the rhetor has asked
abbrev pub repeated : Message
repeated = record claim { source = operator; timestamp = 9 }

-- the same claim to the rhetor
abbrev pub other_claim : Message
other_claim = record claim { target = address rhetor }

-- agents of another organisation
abbrev pub elsewhere : AddressPattern
elsewhere = record finance { org = "acme" }

-- what happens between the response and the next request
abbrev pub between : Trace
between = stored other_claim claim ∷ (invalidated elsewhere none ∷ (audited claim none ∷ []))

served_from_cache_example :
    handle_send_get
      (over_cache digest (λ t. 7) engine)
      repeated
      5
      (between ++ (stored claim claim ∷ []))
    ≡ (ok (some claim), between ++ (stored claim claim ∷ []))
unfolding ttl_of lookup key_of str matches Pattern.matches
served_from_cache_example =
    served_from_cache digest (λ t. 7) engine claim repeated analyst analyst claim 5 between [] refl
      refl refl refl
      (
        λ b is.
            subst (λ x. (key_of digest other_claim x == key_of digest claim analyst) ≡ false)
              (ap (λ g. elim g [ address x ↦ x | pattern _ ↦ rhetor ]) is) refl,
        (refl, (tt, tt)),
      )
      (omega arith)
