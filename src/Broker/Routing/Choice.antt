-- ===== src/Broker/Routing/Choice.antt =====
-- The stages of the router keep to the candidates, and never lose the last one.
use agent_handshake_protocol.Prelude.{
  String, ◌≡◌, refl, inl, inr, Bool, false, none, List, [], ◌∷◌, ◌++◌, Bool-cases, Option-cases,
}
use agent_handshake_protocol.Prelude.Lists.{All, filter, contains}
use agent_handshake_protocol.Broker.Routing.{
  ServerMeta, RoutingPreferences, ServerRank, Unmet, Candidate, hard_filter_one, hard_filter,
  narrow, narrow_each, apply_soft_filter, insert_ranked, rank, key_lt, is_nil, specialty,
  integration, preferred_server,
}

module _ (P : Candidate → Type 0) where
  -- a list of candidates, not empty, all of which satisfy `P`
  abbrev pub Some : List Candidate → Type 0
  Some cs = (is_nil cs ≡ false) × All P cs

  filter-All : (test : Candidate → Bool) (cs : List Candidate) → All P cs → All P (filter test cs)
  unfolding filter
  filter-All test [] h = tt
  filter-All test (c ∷ cs) h = elim (Bool-cases (test c)) [
    | inl e ↦ rw (filter, e) (h.0, filter-All test cs h.1)
    | inr e ↦ rw (filter, e) (filter-All test cs h.1)
  ]

  narrowed :
      (r : List Candidate) (after : List Candidate) (u : Unmet) (us : List Unmet)
      → Some r
      → All P after
      → Some
          (elim after as (λ _. List Candidate × List Unmet) [
            | [] ↦ (r, us ++ u ∷ [])
            | c ∷ cs ↦ (c ∷ cs, us)
          ]).0
  narrowed r [] u us h g = h
  narrowed r (c ∷ cs) u us h g = (refl, g)

  narrow-Some :
      (test : Candidate → Bool) (u : Unmet) (r : List Candidate × List Unmet)
      → Some r.0
      → Some (narrow test u r).0
  unfolding narrow
  narrow-Some test u (cs, us) h = narrowed cs (filter test cs) u us h (filter-All test cs h.1)

  narrow_each-Some :
      (offered : ServerMeta → List String) (unmet : String → Unmet) (xs : List String)
      (r : List Candidate × List Unmet)
      → Some r.0
      → Some (narrow_each offered unmet xs r).0
  unfolding narrow_each
  narrow_each-Some offered unmet [] r h = h
  narrow_each-Some offered unmet (x ∷ xs) r h =
      narrow_each-Some offered unmet xs (narrow (λ c. contains x (offered c.0)) (unmet x) r)
        (narrow-Some (λ c. contains x (offered c.0)) (unmet x) r h)

  pub soft-Some :
      (prefs : RoutingPreferences) (kept : List Candidate)
      → Some kept
      → Some (apply_soft_filter prefs kept).0
  unfolding apply_soft_filter
  soft-Some prefs kept h =
      let by_specialty =
        narrow_each (λ s. s.specialties) specialty prefs.preferred_specialties (kept, []) in
      let by_integration =
        narrow_each (λ s. s.integrations) integration prefs.preferred_integrations by_specialty in
      let first =
        narrow_each-Some (λ s. s.specialties) specialty prefs.preferred_specialties (kept, []) h in
      let second =
        narrow_each-Some (λ s. s.integrations) integration prefs.preferred_integrations by_specialty
          first in
      elim (Bool-cases (is_nil prefs.preferred_servers)) [
        | inl e ↦ rw (apply_soft_filter, e) second
        | inr e ↦
            rw (apply_soft_filter, e)
              (narrow-Some (λ c. contains c.0.server_id prefs.preferred_servers) preferred_server
                by_integration second)
      ]

  insert-Some :
      (by : ServerRank) (c : Candidate) (cs : List Candidate)
      → P c
      → All P cs
      → Some (insert_ranked by c cs)
  unfolding insert_ranked
  insert-Some by c [] h g = (refl, (h, tt))
  insert-Some by c (d ∷ ds) h g = elim (Bool-cases (key_lt by d c)) [
    | inl e ↦ rw (insert_ranked, e) (refl, (g.0, (insert-Some by c ds h g.1).1))
    | inr e ↦ rw (insert_ranked, e) (refl, (h, g))
  ]

  rank-All : (by : ServerRank) (cs : List Candidate) → All P cs → All P (rank by cs)
  unfolding rank
  rank-All by [] h = tt
  rank-All by (c ∷ cs) h = (insert-Some by c (rank by cs) h.0 (rank-All by cs h.1)).1

  -- a list that is ranked has a first candidate, one of those ranked
  pub rank-Some : (by : ServerRank) (cs : List Candidate) → Some cs → Some (rank by cs)
  unfolding rank
  rank-Some by [] h = cc (h.0)
  rank-Some by (c ∷ cs) h = insert-Some by c (rank by cs) h.1.0 (rank-All by cs h.1.1)

-- what the hard filter keeps has passed it
pub hard_filter-All :
    (prefs : RoutingPreferences) (Q : Candidate → Type 0) (cs : List Candidate)
    → All Q cs
    → All (λ c. (hard_filter_one prefs c ≡ none) × Q c) (hard_filter prefs cs).0
unfolding hard_filter
hard_filter-All prefs Q [] h = tt
hard_filter-All prefs Q (c ∷ cs) h = elim (Option-cases (hard_filter_one prefs c)) [
  | inl e ↦ rw (hard_filter, e) ((e, h.0), hard_filter-All prefs Q cs h.1)
  | inr (x, e) ↦ rw (hard_filter, e) (hard_filter-All prefs Q cs h.1)
]
