-- ===== src/Tests/Routing.antt =====
-- A routing decision.
use agent_handshake_protocol.Prelude.{ℕ, String, Option, none, some, List, [], ◌∷◌, true, false}
use agent_handshake_protocol.Prelude.Int.{pos}
use agent_handshake_protocol.Economy.Tiers.{small}
use agent_handshake_protocol.Economy.Reputation.{ReputationEntry}
use agent_handshake_protocol.Broker.Routing.{ServerMeta, RoutingPreferences, cheapest, MenuLeaf}
use agent_handshake_protocol.Broker.Routing.Resolve.{Call}

abbrev pub server : String → List String → ℕ → ServerMeta
server id specialties rate = record {
  server_id = id;
  org = id;
  operator = "";
  public_key = "";
  specialties = specialties;
  integrations = [];
  supported_codes = [];
  supported_tiers = [];
  base_rate = rate;
  compute_binding = "*.*.*";
  compute_ranking = "cheapest";
  survey_opt_in = true;
  csat_routing_opt_in = true;
  training_data_opt_in = false;
  registered_at = 0;
  extra = [];
}

abbrev pub acme : ServerMeta
acme = server "acme" ("risk" ∷ []) 300

abbrev pub budget : ServerMeta
budget = server "budget" [] 100

-- a call that asks for risk, and would like a server that nobody knows
abbrev pub prefs : RoutingPreferences
prefs = record {
  min_reputation = pos 300;
  min_csat = 0;
  required_specialties = "risk" ∷ [];
  required_integrations = [];
  max_cost_per_call = none;
  blocked_servers = [];
  preferred_specialties = [];
  preferred_integrations = [];
  preferred_servers = "nobody" ∷ [];
  server_rank_by = cheapest;
  compute_rank_by = "cheapest";
}

abbrev pub short_call : Call
short_call = record { tier = small; prompt_chars = pos 100; max_response_chars = pos 500 }

-- nobody is known, every coin falls against the servers, and there is one leaf
abbrev pub unknown : String → Option ReputationEntry
unknown id = none

abbrev pub unlucky : ℕ → ℕ
unlucky n = 1_000_000

abbrev pub opus : MenuLeaf
opus = record {
  provider_id = "bedrock";
  tier = small;
  model = "opus";
  rate_per_1k_chars = 500_000;
  latency_p95_ms = 1_000_000;
  capacity = 1_000_000;
  healthy = true;
}

abbrev pub one_leaf : ServerMeta → Option MenuLeaf
one_leaf s = some opus
