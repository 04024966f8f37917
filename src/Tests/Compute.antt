-- ===== src/Tests/Compute.antt =====
-- The menu of leaves, the choice of one, and the routing over both registries at concrete inputs.
use agent_handshake_protocol.Prelude.{◌≡◌, refl, true, false, not, ◌==◌, [], ◌∷◌}
use agent_handshake_protocol.Prelude.Lists.{filter}
use agent_handshake_protocol.Prelude.Text.{has}
use agent_handshake_protocol.Economy.ComputeProvider.{
  MenuLeaf, new_provider, pattern_matches, address,
}
use agent_handshake_protocol.Economy.ComputeProvider.Ranking.{best_leaf}
use agent_handshake_protocol.Economy.ComputeProvider.Globs.{dotted_model-unmatched}
use agent_handshake_protocol.Economy.ComputeProvider.Best.{IsBest, best_leaf-IsBest}
use agent_handshake_protocol.Broker.Servers.{Directory}
use agent_handshake_protocol.Broker.Compute.{Menu, list_leaves, deregister_provider}
use agent_handshake_protocol.Broker.Compute.Cascade.{deregister_provider-menu}
use agent_handshake_protocol.Tests.Routing.{acme, budget, opus}

-- a cheaper leaf of another provider, and one whose model has a dot
abbrev pub haiku : MenuLeaf
haiku = record opus { provider_id = "groq"; model = "haiku"; rate_per_1k_chars = 100_000 }

abbrev pub dotted : MenuLeaf
dotted = record opus { model = "haiku-4.5" }

abbrev pub menu : Menu
menu = record {
  providers = ("bedrock", new_provider "bedrock") ∷ ("groq", new_provider "groq") ∷ [];
  alive = ("bedrock", 30) ∷ ("groq", 30) ∷ [];
  last_seen = ("bedrock", 0) ∷ ("groq", 0) ∷ [];
  leaves = ("bedrock.small.opus", opus) ∷ ("groq.small.haiku", haiku) ∷ [];
  index = "bedrock.small.opus" ∷ "groq.small.haiku" ∷ [];
}

abbrev pub directory : Directory
directory = record {
  servers = ("acme", acme) ∷ ("budget", budget) ∷ [];
  markers = ("acme", 30) ∷ [];
}

dotted_model-unmatched_example : pattern_matches "*.*.*" (address dotted) ≡ false
unfolding has
dotted_model-unmatched_example = dotted_model-unmatched dotted "*.*.*" refl refl

best_leaf-IsBest_example :
    IsBest [] "*.*.*" "cheapest"
      (opus ∷ haiku ∷ [])
      (best_leaf [] "*.*.*" "cheapest" (opus ∷ haiku ∷ []))
best_leaf-IsBest_example = best_leaf-IsBest [] "*.*.*" "cheapest" (opus ∷ haiku ∷ [])

deregister_provider-menu_example :
    (list_leaves 5 false (deregister_provider "groq" true menu)).0
    ≡ filter (λ l. not (l.provider_id == "groq")) (list_leaves 5 false menu).0
unfolding address
deregister_provider-menu_example = deregister_provider-menu 5 "groq" true menu (refl, (refl, tt))
