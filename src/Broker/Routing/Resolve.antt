-- ===== src/Broker/Routing/Resolve.antt =====
-- ahp/broker/router.py: `Router.resolve`, on the servers that the registry discovers and the leaf
-- that is chosen for each of them.
use agent_handshake_protocol.Prelude.{
  ℕ, suc, String, Option, none, some, List, [], ◌∷◌, ◌++◌, ltb, if◌then◌else◌,
}
use agent_handshake_protocol.Prelude.Int.{ℤ}
use agent_handshake_protocol.Economy.Tiers.{Tier}
use agent_handshake_protocol.Economy.Pricing.{estimate_hold}
use agent_handshake_protocol.Economy.Reputation.{ReputationEntry, new_entry, visibility_factor}
use agent_handshake_protocol.Broker.Routing.{
  ServerMeta, RoutingPreferences, Reason, throttled, Unmet, Candidate, hard_filter,
  apply_soft_filter, rank, MenuLeaf, nobody_qualified, no_live_leaf, too_expensive, RoutingDecision,
  refused, is_nil,
}

-- what the call is
pub record Call : Type 0 where
  pub tier : Tier
  pub prompt_chars : ℤ
  pub max_response_chars : ℤ

module _ (log10 : ℕ → ℕ) (roll : ℕ → ℕ) (reputation : String → Option ReputationEntry)
    (leaf_of : ServerMeta → Option MenuLeaf) where
  -- `await self._rep(srv.server_id) or ReputationEntry(owner=srv.server_id)`
  abbrev pub with_reputation : List ServerMeta → List Candidate
  with_reputation [] = []
  with_reputation (s ∷ servers) =
      (s, elim (reputation s.server_id) [ none ↦ new_entry s.server_id | some r ↦ r ])
      ∷ with_reputation servers

  -- the loop of the coin flips, from the n-th roll on
  unfoldable pub coin_flips : ℕ → List Candidate → List Candidate × List (String × Reason)
  unfolding visibility_factor
  coin_flips n [] = ([], [])
  coin_flips n (c ∷ cs) =
      let (gated, rejections) = coin_flips (suc n) cs in
      if ltb (roll n) (visibility_factor log10 c.1)
      then (c ∷ gated, rejections)
      else (gated, (c.0.server_id, throttled) ∷ rejections)

  -- `if not gated: gated = kept`
  abbrev pub gate : List Candidate → List Candidate
  gate kept = let gated = (coin_flips 0 kept).0 in if is_nil gated then kept else gated

  -- the stages 6 and 7, for the server that was chosen
  unfoldable pub price :
      RoutingPreferences → Call → ServerMeta → List (String × Reason) → List Unmet → RoutingDecision
  unfolding estimate_hold
  price prefs call server rejections soft_unmet = elim (leaf_of server) [
    | none ↦ refused rejections soft_unmet no_live_leaf
    | some leaf ↦
        let hold =
          (estimate_hold server.base_rate call.tier call.prompt_chars call.max_response_chars
            leaf.rate_per_1k_chars).amount in
        let decision : RoutingDecision = record {
          server = some server;
          leaf = some leaf;
          estimated_hold = hold;
          rejections = rejections;
          soft_preferences_unmet = soft_unmet;
          unmet_requirements = [];
        } in
        elim prefs.max_cost_per_call [
          | none ↦ decision
          | some most ↦
              if ltb most hold then refused rejections soft_unmet too_expensive else decision
        ]
  ]

  -- `ranked[0]`, priced; the list is never empty where candidates were kept
  abbrev pub first_of :
      RoutingPreferences
      → Call
      → List (String × Reason)
      → List Unmet
      → List Candidate
      → RoutingDecision
  first_of prefs call rejections soft_unmet [] = refused rejections soft_unmet nobody_qualified
  first_of prefs call rejections soft_unmet (chosen ∷ _) =
      price prefs call chosen.0 rejections soft_unmet

  -- the stages 3 to 7, for the candidates that passed the hard filter
  abbrev pub choose :
      RoutingPreferences → Call → List Candidate → List (String × Reason) → RoutingDecision
  choose prefs call kept rejections =
      let rejections' = rejections ++ (coin_flips 0 kept).1 in
      let narrowed = apply_soft_filter prefs (gate kept) in
      first_of prefs call rejections' narrowed.1 (rank prefs.server_rank_by narrowed.0)

  -- `resolve`
  unfoldable pub resolve : RoutingPreferences → Call → List ServerMeta → RoutingDecision
  unfolding hard_filter
  resolve prefs call servers =
      let filtered = hard_filter prefs (with_reputation servers) in
      if is_nil filtered.0
      then refused filtered.1 [] nobody_qualified
      else choose prefs call filtered.0 filtered.1
