-- ===== src/Engine/Dispatch/Cached.antt =====
-- The engine over the cache: its interface filled by the model of the cache, whose state is what has
-- been stored and invalidated so far.
use agent_handshake_protocol.Prelude.{
  ℕ, ◌+◌, ◌<◌, String, ◌≡◌, refl, ap, ◌∙◌, inl, inr, true, false, ◌==◌, eq_refl, Option, none, some,
  [], ◌∷◌, ◌++◌, ltb, nat_beq, arith, Bool-cases,
}
use agent_handshake_protocol.Prelude.Dict.{lookup, lookup-insert}
use agent_handshake_protocol.Prelude.Exec.{Result, ok, err}
use agent_handshake_protocol.Prelude.Lists.{All}
use agent_handshake_protocol.Core.Address.{AgentAddress}
use agent_handshake_protocol.Core.Address.Text.{str}
use agent_handshake_protocol.Engine.Message.{Message, address, Body}
use agent_handshake_protocol.Engine.Services.{
  ProtocolEngine, Trace, Call, sent, asked, casted, cast_asked, subscribed, stored, invalidated,
  audited,
}
use agent_handshake_protocol.Engine.Dispatch.{recall, handle_send_get}
use agent_handshake_protocol.Engine.Dispatch.Gates.{Target-cases}
use agent_handshake_protocol.Engine.Dispatch.Gates.Refusals.{passed}
use agent_handshake_protocol.Transport.Cache.{
  Stored, Cache, CacheError, ttl_for, key_of, get, put, matches, dooms, invalidate,
}
use agent_handshake_protocol.Transport.Cache.Reads.{lookup-invalidate}

-- The clock may depend on what has been done.
module _ (digest : (addr code : String) → Body → String) (clock : Trace → ℕ) where
  -- what the cache holds after some calls
  abbrev pub cache_after : Trace → Cache
  cache_after [] = []
  cache_after (stored m r ∷ t) = (put digest (clock t) m r (cache_after t)).1
  cache_after (invalidated p params ∷ t) = (invalidate (clock t) p params (cache_after t)).1
  cache_after (_ ∷ t) = cache_after t

  abbrev pub found : Result CacheError (Option Message) → Option Message
  found (err e) = none
  found (ok r) = r

  -- an engine whose cache is the one that it has filled
  abbrev pub over_cache : ProtocolEngine → ProtocolEngine
  over_cache e = record e {
    services = record e.services {
      cached = λ t m. found (get digest (clock t) m (cache_after t));
      invalidate = λ t p params. (invalidate (clock t) p params (cache_after t)).0;
    };
  }

  -- what is kept of the response to a request, stored after `t`
  abbrev pub kept_entry : Message → AgentAddress → Message → Trace → Stored
  kept_entry m a r t = record {
    entry = record { target_uri = str a; target = a; code = m.code; response = r };
    expires = clock t + ttl_for a;
  }

  -- Calls that store nothing under a key, and invalidate nothing that matches what is kept there.
  abbrev pub Leaves : String → Stored → Call → Type 0
  Leaves k s (stored q _) =
      (b : AgentAddress) → q.target ≡ address b → (key_of digest q b == k) ≡ false
  Leaves k s (invalidated p params) = matches p params s.entry ≡ false
  Leaves k s (sent _) = Unit
  Leaves k s (asked _ _) = Unit
  Leaves k s (casted _ _) = Unit
  Leaves k s (cast_asked _ _ _ _) = Unit
  Leaves k s (subscribed _) = Unit
  Leaves k s (audited _ _) = Unit

  lookup-put :
      (k : String) (now : ℕ) (q r : Message) (c : Cache)
      → ((b : AgentAddress) → q.target ≡ address b → (key_of digest q b == k) ≡ false)
      → lookup k (put digest now q r c).1 ≡ lookup k c
  unfolding put
  lookup-put k now q r c h = elim (Target-cases q.target) [
    | inr (p, many) ↦ rw (many, put) refl
    | inl (b, one) ↦ elim (Bool-cases (nat_beq (ttl_for b) 0)) [
      | inl brief ↦ rw (one, put, brief) refl
      | inr long ↦ rw (one, put, long) (rw (lookup-insert, h b one) refl)
    ]
  ]

  put-kept :
      (m r : Message) (a : AgentAddress) (t : Trace) (c : Cache)
      → m.target ≡ address a
      → nat_beq (ttl_for a) 0 ≡ false
      → lookup (key_of digest m a) (put digest (clock t) m r c).1 ≡ some (kept_entry m a r t)
  unfolding put
  put-kept m r a t c one kept = rw (one, put, kept) (rw (lookup-insert, eq_refl) refl)

  stored-lookup :
      (m r : Message) (a : AgentAddress) (t : Trace)
      → m.target ≡ address a
      → nat_beq (ttl_for a) 0 ≡ false
      → lookup (key_of digest m a) (cache_after (stored m r ∷ t)) ≡ some (kept_entry m a r t)
  stored-lookup m r a t one kept = put-kept m r a t (cache_after t) one kept

  -- Such calls leave what is kept under the key.
  Leaves-lookup :
      (k : String) (s : Stored) (calls t : Trace)
      → All (Leaves k s) calls
      → lookup k (cache_after t) ≡ some s
      → lookup k (cache_after (calls ++ t)) ≡ some s
  Leaves-lookup k s [] t h there = there
  Leaves-lookup k s (stored q r ∷ calls) t h there =
      lookup-put k (clock (calls ++ t)) q r (cache_after (calls ++ t)) h.0
      ∙ Leaves-lookup k s calls t h.1 there
  Leaves-lookup k s (invalidated p params ∷ calls) t h there =
      let before = Leaves-lookup k s calls t h.1 there in
      let spared : dooms (clock (calls ++ t)) p params (some s) ≡ false = ground (arith, h.0) in
      lookup-invalidate (clock (calls ++ t)) p params k (cache_after (calls ++ t))
      ∙ rw (before, spared) refl
  Leaves-lookup k s (sent _ ∷ calls) t h there = Leaves-lookup k s calls t h.1 there
  Leaves-lookup k s (asked _ _ ∷ calls) t h there = Leaves-lookup k s calls t h.1 there
  Leaves-lookup k s (casted _ _ ∷ calls) t h there = Leaves-lookup k s calls t h.1 there
  Leaves-lookup k s (cast_asked _ _ _ _ ∷ calls) t h there = Leaves-lookup k s calls t h.1 there
  Leaves-lookup k s (subscribed _ ∷ calls) t h there = Leaves-lookup k s calls t h.1 there
  Leaves-lookup k s (audited _ _ ∷ calls) t h there = Leaves-lookup k s calls t h.1 there

  -- Once the response to a request has been stored, and while nothing is stored under its key again
  -- and no invalidation matches its target, whatever else is called: a SEND-GET with the same key,
  -- whoever sends it, is answered with that response for the time of its target's lifecycle, and asks
  -- for nothing.
  pub served_from_cache :
      (e : ProtocolEngine) (m again : Message) (a b : AgentAddress) (r : Message) (n : ℕ)
      (calls t : Trace)
      → m.target ≡ address a
      → again.target ≡ address b
      → key_of digest m a ≡ key_of digest again b
      → nat_beq (ttl_for a) 0 ≡ false
      → All (Leaves (key_of digest m a) (kept_entry m a r t)) calls
      → clock (calls ++ (stored m r ∷ t)) < clock t + ttl_for a
      → handle_send_get (over_cache e) again n (calls ++ (stored m r ∷ t))
        ≡ (ok (some r), calls ++ (stored m r ∷ t))
  unfolding handle_send_get get
  served_from_cache e m again a b r n calls t one two same kept left soon =
      let u : Trace = calls ++ (stored m r ∷ t) in
      let there =
        Leaves-lookup (key_of digest m a) (kept_entry m a r t) calls (stored m r ∷ t) left
          (stored-lookup m r a t one kept) in
      let fresh : ltb (clock u) (clock t + ttl_for a) ≡ true = ground arith in
      let read : get digest (clock u) again (cache_after u) ≡ ok (some r) =
        rw (two, get) (rw (← same, there, fresh) refl) in
      let hit : (over_cache e).services.cached u again ≡ some r = ap found read in
      passed (over_cache e) again b u two (λ x. recall (over_cache e) again x n)
      ∙ rw (recall, hit) refl
