-- ===== src/Broker/Facade/Outages.antt =====
-- Which outages are found, and which are never found.
use agent_handshake_protocol.Prelude.{
  ℕ, String, ◌≡◌, refl, sym, ap, subst, inl, inr, true, false, ◌==◌, eq_refl, List, [], ◌∷◌, arith,
  Bool-cases,
}
use agent_handshake_protocol.Prelude.Dict.{Dict, lookup, erase, lookup-erase, AllEntries}
use agent_handshake_protocol.Prelude.Lists.{All}
use agent_handshake_protocol.Economy.ComputeProvider.{ComputeProvider, MenuLeaf, address}
use agent_handshake_protocol.Economy.WalletClient.{Redis}
use agent_handshake_protocol.Broker.Compute.{
  Menu, deregister_leaf, deregister_leaves, menu_for_provider, tidy, list_providers, detect_outage,
  deregister_provider,
}
use agent_handshake_protocol.Broker.Facade.{
  BrokerState, Broker, outage_loop, check_compute_outages, deregister_compute_provider,
}

-- a provider that is found out has its sentinel cleared, and nothing else
found-outage :
    (now : ℕ) (p : String) (m : Menu)
    → (detect_outage now p m).0 ≡ true
    → (detect_outage now p m).1 ≡ record m { last_seen = erase p m.last_seen }
unfolding detect_outage
found-outage now p m h = ground arith

-- An outage that is found is not found again, at whatever time, unless the provider is heard of.
pub detect_outage_once :
    (now later : ℕ) (p : String) (m : Menu)
    → (detect_outage now p m).0 ≡ true
    → (detect_outage later p (detect_outage now p m).1).0 ≡ false
detect_outage_once now later p m h =
    subst (λ k. (detect_outage later p k).0 ≡ false) (sym (found-outage now p m h))
      (unfold detect_outage in rw (lookup-erase, eq_refl) refl)

-- Every provider is stored under its id.
abbrev pub IsNamed : Dict ComputeProvider → Type 0
IsNamed providers = AllEntries (λ id p. p.provider_id ≡ id) providers

absent-providers :
    (id : String) (providers : Dict ComputeProvider)
    → IsNamed providers
    → All (λ p. (p.provider_id == id) ≡ false) (list_providers (erase id providers))
unfolding list_providers erase
absent-providers id [] h = tt
absent-providers id ((k, p) ∷ providers) h = elim (Bool-cases (k == id)) [
  | inl e ↦ rw e (absent-providers id providers h.1)
  | inr e ↦ rw e (rw h.0 e, absent-providers id providers h.1)
]

loop-misses :
    (id : String) (ps : List ComputeProvider) (s : BrokerState)
    → All (λ p. (p.provider_id == id) ≡ false) ps
    → All (λ hit. (hit == id) ≡ false) (outage_loop ps s).0
unfolding outage_loop
loop-misses id [] s h = tt
loop-misses id (p ∷ ps) s h =
    elim (Bool-cases (detect_outage s.redis.clock p.provider_id s.compute).0) [
      | inl e ↦ rw (e, outage_loop) (h.0, loop-misses id ps _ h.1)
      | inr e ↦ rw (e, outage_loop) (loop-misses id ps _ h.1)
    ]

-- the cascade leaves the providers and their sentinels
cascade-keeps :
    (ls : List MenuLeaf) (m : Menu)
    → ((deregister_leaves ls m).providers ≡ m.providers)
      × ((deregister_leaves ls m).last_seen ≡ m.last_seen)
unfolding deregister_leaves deregister_leaf
cascade-keeps [] m = (refl, refl)
cascade-keeps (l ∷ ls) m = cascade-keeps ls (deregister_leaf (address l) m)

-- If every provider is stored under its id, a provider that is deregistered as broken keeps the
-- sentinel that arms the outage, but no sweep on the state that the deregistration leaves finds it,
-- at whatever time.
pub ungraceful_never_found :
    (b : Broker) (id : String) (s : BrokerState) (later : Redis)
    → IsNamed s.compute.providers
    → let gone = record (deregister_compute_provider b id false s) { redis = later } in
      (lookup id gone.compute.last_seen ≡ lookup id s.compute.last_seen)
      × All (λ hit. (hit == id) ≡ false) (check_compute_outages gone).0
unfolding deregister_compute_provider deregister_provider check_compute_outages tidy
ungraceful_never_found b id s later named =
    let m = s.compute in
    let ls = menu_for_provider id m in
    let gone = record (deregister_compute_provider b id false s) { redis = later } in
    let kept = cascade-keeps ls (tidy m) in
    (
      ap (lookup id) kept.1,
      loop-misses id (list_providers gone.compute.providers) gone (
          subst (λ ps. All (λ p. (p.provider_id == id) ≡ false) (list_providers (erase id ps)))
            (sym kept.0) (absent-providers id m.providers named)),
    )
