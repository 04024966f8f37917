-- ===== src/Transport/Cache/Reads.antt =====
-- What is read from the cache after a response was put there, and after an invalidation.
use agent_handshake_protocol.Prelude.{
  ℕ, ◌+◌, ◌≤◌, String, ◌≡◌, refl, ap, subst, ◌∙◌, inl, inr, true, false, ◌&&◌, ◌==◌, eq_iff, Option,
  none, some, List, [], ◌∷◌, ltb, nat_beq, arith, Bool-cases, Option-cases, if◌then◌else◌,
}
use agent_handshake_protocol.Prelude.Exec.{ok}
use agent_handshake_protocol.Prelude.Dict.{Dict, lookup, erase, lookup-insert, lookup-erase}
use agent_handshake_protocol.Prelude.Lists.{contains}
use agent_handshake_protocol.Core.Address.{AgentAddress}
use agent_handshake_protocol.Core.Pattern.{AddressPattern}
use agent_handshake_protocol.Engine.Message.{Message, address, Body}
use agent_handshake_protocol.Transport.Cache.{
  Stored, Cache, ttl_for, live, key_of, get, put, matches, dooms, invalidate_loop, keys_of,
  invalidate,
}

-- After a response was put for a request, a request with the same key reads it for the time of its
-- target's lifecycle and no longer, every other request reads what it did, and a lifecycle without
-- such a time changes nothing.
pub get-put :
    (digest : (addr code : String) → Body → String) (now later : ℕ)
    (request response asked : Message) (target target' : AgentAddress) (c : Cache)
    → request.target ≡ address target
    → asked.target ≡ address target'
    → get digest later asked (put digest now request response c).1 ≡ (
        if nat_beq (ttl_for target) 0
        then get digest later asked c
        else if key_of digest request target == key_of digest asked target'
        then ok (if ltb later (now + ttl_for target) then some response else none)
        else get digest later asked c)
unfolding get put
get-put digest now later request response asked target target' c to to' =
    elim (Bool-cases (nat_beq (ttl_for target) 0)) [
      | inl e ↦ rw (to, put, e) refl
      | inr e ↦ elim (Bool-cases (key_of digest request target == key_of digest asked target')) [
        | inl same ↦ rw (to, put, e) (rw (to', get, lookup-insert, same) refl)
        | inr differ ↦ rw (to, put, e) (rw (to', get, lookup-insert, differ) refl)
      ]
    ]

module _ (now : ℕ) (p : AddressPattern) (params : Option (Dict String)) where
  loop-lookup :
      (j : String) (ks : List String) (c : Cache)
      → lookup j (invalidate_loop now p params ks c).1
        ≡ (if contains j ks && dooms now p params (lookup j c) then none else lookup j c)
  unfolding invalidate_loop contains
  loop-lookup j [] c = refl
  loop-lookup j (k ∷ ks) c = elim (Bool-cases (dooms now p params (lookup k c))) [
    | inl doomed ↦ elim (Bool-cases (k == j)) [
      | inl same ↦
          let there : dooms now p params (lookup j c) ≡ true =
            subst (λ x. dooms now p params (lookup x c) ≡ true) ((eq_iff k j).0 same) doomed in
          rw
            (doomed, invalidate_loop, loop-lookup j ks (erase k c), lookup-erase k j c, same, there)
            (elim (Bool-cases (contains j ks)) [ inl e ↦ rw e refl | inr e ↦ rw e refl ])
      | inr differ ↦
          rw (doomed, invalidate_loop, loop-lookup j ks (erase k c), lookup-erase k j c, differ)
            refl
    ]
    | inr spared ↦ elim (Bool-cases (k == j)) [
      | inl same ↦
          let there : dooms now p params (lookup j c) ≡ false =
            subst (λ x. dooms now p params (lookup x c) ≡ false) ((eq_iff k j).0 same) spared in
          rw (spared, invalidate_loop, loop-lookup j ks c, same, there)
            (elim (Bool-cases (contains j ks)) [ inl e ↦ rw e refl | inr e ↦ rw e refl ])
      | inr differ ↦ rw (spared, invalidate_loop, loop-lookup j ks c, differ) refl
    ]
  ]

  lookup-keys :
      (j : String) (c : Cache) (s : Stored) → lookup j c ≡ some s → contains j (keys_of c) ≡ true
  unfolding lookup contains
  lookup-keys j [] s h = absurd (cc)
  lookup-keys j ((k, t) ∷ c) s h = elim (Bool-cases (k == j)) [
    | inl e ↦ rw e refl
    | inr e ↦ rw e (lookup-keys j c s (rw e at h))
  ]

  -- what an invalidation leaves under a key
  pub lookup-invalidate :
      (j : String) (c : Cache)
      → lookup j (invalidate now p params c).1
        ≡ (if dooms now p params (lookup j c) then none else lookup j c)
  unfolding invalidate
  lookup-invalidate j c = loop-lookup j (keys_of c) c ∙ elim (Option-cases (lookup j c)) [
    | inl absent ↦
        rw absent
          (elim (Bool-cases (contains j (keys_of c))) [ inl e ↦ rw e refl | inr e ↦ rw e refl ])
    | inr (s, found) ↦ rw (lookup-keys j c s found) refl
  ]

  loop-idle :
      (ks : List String) (c : Cache)
      → ((j : String) → dooms now p params (lookup j c) ≡ false)
      → invalidate_loop now p params ks c ≡ (0, c)
  unfolding invalidate_loop
  loop-idle [] c h = refl
  loop-idle (k ∷ ks) c h = rw (h k, invalidate_loop) (loop-idle ks c h)

  -- no key is doomed once more
  spared :
      (x : Option Stored) → dooms now p params (if dooms now p params x then none else x) ≡ false
  spared x = elim (Bool-cases (dooms now p params x)) [ inl e ↦ rw e refl | inr e ↦ rw e e ]

  later-live :
      (later : ℕ) (x : Option Stored)
      → now ≤ later
      → live later (if dooms now p params x then none else x) ≡ elim x [
        | none ↦ none
        | some s ↦ if matches p params s.entry then none else live later (some s)
      ]
  later-live later none h = refl
  later-live later (some s) h = ground arith

  -- From an invalidation on, no key reads an entry that the pattern and the params match, every
  -- other entry is read as before, and the same invalidation finds nothing to delete.
  pub invalidate_reads :
      (later : ℕ) (c : Cache)
      → now ≤ later
      → ((k : String)
          → live later (lookup k (invalidate now p params c).1) ≡ elim (lookup k c) [
            | none ↦ none
            | some s ↦ if matches p params s.entry then none else live later (some s)
          ])
        × (invalidate now p params (invalidate now p params c).1
            ≡ (0, (invalidate now p params c).1))
  unfolding invalidate
  invalidate_reads later c h =
      let after = (invalidate now p params c).1 in
      (
        λ k. ap (live later) (lookup-invalidate k c) ∙ later-live later (lookup k c) h,
        loop-idle (keys_of after) after
            (λ j. ap (dooms now p params) (lookup-invalidate j c) ∙ spared (lookup j c)),
      )
