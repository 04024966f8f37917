-- ===== src/Broker/Routing/Route.antt =====
-- ahp/broker/router.py: `Router.resolve` over the directory of servers and the menu of leaves.
use agent_handshake_protocol.Prelude.{
  ℕ, String, ◌≡◌, true, Option, none, some, List, [], ◌∷◌, if◌then◌else◌,
}
use agent_handshake_protocol.Prelude.Dict.{Dict, insert}
use agent_handshake_protocol.Prelude.Lists.Sorting.{Elem}
use agent_handshake_protocol.Economy.ComputeProvider.{MenuLeaf}
use agent_handshake_protocol.Economy.ComputeProvider.Ranking.{best_leaf}
use agent_handshake_protocol.Economy.ComputeProvider.Best.{IsBest}
use agent_handshake_protocol.Economy.Reputation.{ReputationEntry}
use agent_handshake_protocol.Broker.Servers.{ServerMeta, Directory, discover}
use agent_handshake_protocol.Broker.Compute.{Menu, list_leaves, is_provider_alive}
use agent_handshake_protocol.Broker.Routing.{
  RoutingPreferences, Candidate, hard_filter, hard_filter_one, is_nil, RoutingDecision,
}
use agent_handshake_protocol.Broker.Routing.Resolve.{Call, with_reputation, resolve}

-- `{l.provider_id: 0.5 for l in leaves}`
unfoldable pub provider_reps : List MenuLeaf → Dict ℕ
unfolding insert
provider_reps [] = []
provider_reps (l ∷ leaves) = insert l.provider_id 500_000 (provider_reps leaves)

-- the stage 6, for a server
unfoldable pub leaf_for : RoutingPreferences → List MenuLeaf → ServerMeta → Option MenuLeaf
unfolding best_leaf provider_reps
leaf_for prefs leaves server =
    best_leaf (provider_reps leaves) server.compute_binding prefs.compute_rank_by leaves

module _ (log10 roll : ℕ → ℕ) (reputation : String → Option ReputationEntry) (now : ℕ) where
  -- the stage 1
  unfoldable pub candidates : (code : String) → Call → Directory → List ServerMeta
  unfolding discover
  candidates code call d = discover now none none (some code) (some call.tier) true d

  -- `resolve`; the leaves are listed only if a candidate is left
  unfoldable pub route :
      RoutingPreferences → (code : String) → Call → Directory → Menu → RoutingDecision × Menu
  unfolding resolve hard_filter list_leaves leaf_for candidates
  route prefs code call d m =
      let servers = candidates code call d in
      let (leaves, m') = list_leaves now true m in
      let choice = leaf_for prefs leaves in
      let kept = (hard_filter prefs (with_reputation log10 roll reputation choice servers)).0 in
      (resolve log10 roll reputation choice prefs call servers, if is_nil kept then m else m')

  -- what a decision that routes the call names
  pub record Routed (prefs : RoutingPreferences) (servers : List ServerMeta) (m : Menu)
      (d : RoutingDecision) : Type 0 where
    pub candidate : Candidate
    pub leaf : MenuLeaf
    pub server : d.server ≡ some candidate.0
    pub on_leaf : d.leaf ≡ some leaf
    pub discovered : Elem candidate.0 servers
    pub qualified : hard_filter_one prefs candidate ≡ none
    pub leaf_alive : is_provider_alive now leaf.provider_id m ≡ true
    pub best :
        IsBest
          (provider_reps (list_leaves now true m).0)
          candidate.0.compute_binding
          prefs.compute_rank_by
          (list_leaves now true m).0
          (some leaf)
