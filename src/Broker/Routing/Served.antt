-- ===== src/Broker/Routing/Served.antt =====
-- Which server a call is routed to, and that it is routed.
use agent_handshake_protocol.Prelude.{
  ℕ, suc, String, ◌≡◌, refl, sym, inl, inr, false, Option, none, some, List, [], ◌∷◌, Bool-cases,
  ltb,
}
use agent_handshake_protocol.Prelude.Lists.{All}
use agent_handshake_protocol.Economy.Reputation.{ReputationEntry, visibility_factor}
use agent_handshake_protocol.Broker.Routing.{
  ServerMeta, RoutingPreferences, Reason, Unmet, Candidate, hard_filter_one, hard_filter,
  apply_soft_filter, is_nil, MenuLeaf, RoutingDecision,
}
use agent_handshake_protocol.Broker.Routing.Resolve.{
  Call, with_reputation, coin_flips, gate, price, first_of, resolve,
}
use agent_handshake_protocol.Broker.Routing.Choice.{Some, soft-Some, rank-Some, hard_filter-All}

-- the decision sends the call to a server, with the leaf of that server
pub record Serves (leaf_of : ServerMeta → Option MenuLeaf) (P : Candidate → Type 0)
    (d : RoutingDecision) : Type 0 where
  pub candidate : Candidate
  pub served : d.server ≡ some candidate.0
  pub on_leaf : d.leaf ≡ leaf_of candidate.0
  pub has_leaf : (l : MenuLeaf) × (leaf_of candidate.0 ≡ some l)
  pub qualified : P candidate

All-map :
    {A : Type 0} (P R : A → Type 0) → ((a : A) → P a → R a) → (xs : List A) → All P xs → All R xs
All-map P R f [] h = tt
All-map P R f (x ∷ xs) h = (f x h.0, All-map P R f xs h.1)

module _ (log10 : ℕ → ℕ) (roll : ℕ → ℕ) (reputation : String → Option ReputationEntry)
    (leaf_of : ServerMeta → Option MenuLeaf) where
  flips-All :
      (P : Candidate → Type 0) (n : ℕ) (cs : List Candidate)
      → All P cs
      → All P (coin_flips log10 roll reputation leaf_of n cs).0
  unfolding coin_flips
  flips-All P n [] h = tt
  flips-All P n (c ∷ cs) h = elim (Bool-cases (ltb (roll n) (visibility_factor log10 c.1))) [
    | inl e ↦ rw (coin_flips, e) (h.0, flips-All P (suc n) cs h.1)
    | inr e ↦ rw (coin_flips, e) (flips-All P (suc n) cs h.1)
  ]

  gate-Some :
      (P : Candidate → Type 0) (kept : List Candidate)
      → Some P kept
      → Some P (gate log10 roll reputation leaf_of kept)
  gate-Some P kept h =
      elim (Bool-cases (is_nil (coin_flips log10 roll reputation leaf_of 0 kept).0)) [
        | inl e ↦ rw (gate, e) h
        | inr e ↦ rw (gate, e) (e, flips-All P 0 kept h.1)
      ]

  -- Every candidate has a leaf.
  HasLeaf : Candidate → Type 0
  HasLeaf c = (l : MenuLeaf) × (leaf_of c.0 ≡ some l)

  price-Serves :
      (P : Candidate → Type 0) (prefs : RoutingPreferences) (call : Call) (c : Candidate)
      (rejections : List (String × Reason)) (soft_unmet : List Unmet)
      → prefs.max_cost_per_call ≡ none
      → HasLeaf c
      → P c
      → Serves leaf_of P (price log10 roll reputation leaf_of prefs call c.0 rejections soft_unmet)
  unfolding price HasLeaf
  price-Serves P prefs call c rejections soft_unmet free (l, has) q =
      rw (price, has)
        (rw free (record {
          candidate = c;
          served = refl;
          on_leaf = sym has;
          has_leaf = (l, has);
          qualified = q;
        }))

  first-Serves :
      (P : Candidate → Type 0) (prefs : RoutingPreferences) (call : Call)
      (rejections : List (String × Reason)) (soft_unmet : List Unmet) (ranked : List Candidate)
      → prefs.max_cost_per_call ≡ none
      → Some (λ c. HasLeaf c × P c) ranked
      → Serves leaf_of P
          (first_of log10 roll reputation leaf_of prefs call rejections soft_unmet ranked)
  first-Serves P prefs call rejections soft_unmet [] free h = cc (h.0)
  first-Serves P prefs call rejections soft_unmet (c ∷ cs) free h =
      price-Serves P prefs call c rejections soft_unmet free h.1.0.0 h.1.0.1

  with_reputation-All :
      (Q : ServerMeta → Type 0) (servers : List ServerMeta)
      → All Q servers
      → All (λ c. Q c.0) (with_reputation log10 roll reputation leaf_of servers)
  with_reputation-All Q [] h = tt
  with_reputation-All Q (s ∷ servers) h = (h.0, with_reputation-All Q servers h.1)

-- If no cost limit is set, every discovered server has a live leaf, and one of them at least passes the
-- hard filter, the call is routed, whatever the coin flips and the soft preferences: to a server that
-- was discovered (whatever `Q` holds of all of them holds of it) and that passed the hard filter, on
-- its own leaf.
pub resolve-Serves :
    (log10 roll : ℕ → ℕ) (reputation : String → Option ReputationEntry)
    (leaf_of : ServerMeta → Option MenuLeaf) (Q : ServerMeta → Type 0) (prefs : RoutingPreferences)
    (call : Call) (servers : List ServerMeta)
    → prefs.max_cost_per_call ≡ none
    → All (λ s. ((l : MenuLeaf) × (leaf_of s ≡ some l)) × Q s) servers
    → is_nil (hard_filter prefs (with_reputation log10 roll reputation leaf_of servers)).0 ≡ false
    → Serves leaf_of
        (λ c. (hard_filter_one prefs c ≡ none) × Q c.0)
        (resolve log10 roll reputation leaf_of prefs call servers)
unfolding resolve HasLeaf
resolve-Serves log10 roll reputation leaf_of Q prefs call servers free offered kept =
    let candidates = with_reputation log10 roll reputation leaf_of servers in
    let P : Candidate → Type 0 = λ c. (hard_filter_one prefs c ≡ none) × Q c.0 in
    let R : Candidate → Type 0 = λ c. ((l : MenuLeaf) × (leaf_of c.0 ≡ some l)) × P c in
    let filtered = hard_filter prefs candidates in
    let passed : All R filtered.0 =
      All-map _ R (λ c h. (h.1.0, (h.0, h.1.1))) filtered.0
        (hard_filter-All prefs (λ c. ((l : MenuLeaf) × (leaf_of c.0 ≡ some l)) × Q c.0) candidates
          (with_reputation-All log10 roll reputation leaf_of
            (λ s. ((l : MenuLeaf) × (leaf_of s ≡ some l)) × Q s) servers offered)) in
    let gated = gate log10 roll reputation leaf_of filtered.0 in
    let narrowed =
      soft-Some R prefs gated
        (gate-Some log10 roll reputation leaf_of R filtered.0 (kept, passed)) in
    rw (resolve, kept)
      (first-Serves log10 roll reputation leaf_of P prefs call _ _ _ free
        (rank-Some R prefs.server_rank_by (apply_soft_filter prefs gated).0 narrowed))
