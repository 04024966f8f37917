-- ===== src/Broker/Routing.antt =====
-- ahp/broker/router.py: the choice of a server for a call. A reason is given by its kind, not by its
-- text. The random source is a function from the number of earlier rolls to a roll in millionths.
pub mod Resolve
pub mod Choice
pub mod Served
pub mod Route
use agent_handshake_protocol.Prelude.{
  ℕ, zero, suc, ◌+◌, ◌*◌, String, Bool, true, false, not, ◌&&◌, ◌||◌, ◌==◌, Option, none, some,
  List, [], ◌∷◌, ◌++◌, ltb, leb, nat_beq, if◌then◌else◌,
}
use Prim.Native.String.{compare}
use Prim.Native.Nat.{Ordering}
use agent_handshake_protocol.Prelude.Int.{ℤ, pos, pos_part, ltb_ℤ}
use agent_handshake_protocol.Prelude.Lists.{contains, filter}
pub use agent_handshake_protocol.Broker.Servers.{ServerMeta}
pub use agent_handshake_protocol.Economy.ComputeProvider.{MenuLeaf}
use agent_handshake_protocol.Economy.Tiers.{Tier}
use agent_handshake_protocol.Economy.Pricing.{estimate_hold}
use agent_handshake_protocol.Economy.Reputation.{ReputationEntry, new_entry, visibility_factor}

pub data ServerRank : Type 0 where
  cheapest best_reputation highest_csat lowest_latency : ServerRank

pub record RoutingPreferences : Type 0 where
  pub min_reputation : ℤ
  pub min_csat : ℕ
  pub required_specialties : List String
  pub required_integrations : List String
  pub max_cost_per_call : Option ℕ
  pub blocked_servers : List String
  pub preferred_specialties : List String
  pub preferred_integrations : List String
  pub preferred_servers : List String
  pub server_rank_by : ServerRank
  pub compute_rank_by : String

-- why a server was left out, and at which stage
pub data Reason : Type 0 where
  blocked low_reputation low_csat missing_specialty missing_integration throttled : Reason

-- the soft preferences that could not be honored
pub data Unmet : Type 0 where
  specialty integration : String → Unmet
  preferred_server : Unmet

abbrev pub Candidate : Type 0
Candidate = ServerMeta × ReputationEntry

-- the first loop of `_hard_filter_one` that finds something missing
unfoldable pub missing : (required offered : List String) → Bool
unfolding contains
missing [] offered = false
missing (x ∷ required) offered = not (contains x offered) || missing required offered

-- `_hard_filter_one`
unfoldable pub hard_filter_one : RoutingPreferences → Candidate → Option Reason
unfolding missing contains
hard_filter_one prefs (srv, rep) =
    if contains srv.server_id prefs.blocked_servers
    then some blocked
    else if ltb_ℤ rep.reputation prefs.min_reputation
    then some low_reputation
    else if ltb rep.csat prefs.min_csat
    then some low_csat
    else if missing prefs.required_specialties srv.specialties
    then some missing_specialty
    else if missing prefs.required_integrations srv.integrations
    then some missing_integration
    else none

abbrev pub passes : RoutingPreferences → Candidate → Bool
passes prefs c = elim (hard_filter_one prefs c) [ none ↦ true | some _ ↦ false ]

-- `if after: result = after`, `else: soft_unmet.append(...)`
unfoldable pub narrow :
    (Candidate → Bool) → Unmet → List Candidate × List Unmet → List Candidate × List Unmet
unfolding filter
narrow test unmet (result, soft_unmet) = elim (filter test result) [
  | [] ↦ (result, soft_unmet ++ (unmet ∷ []))
  | c ∷ after ↦ (c ∷ after, soft_unmet)
]

-- the loops over the preferred specialties and integrations
unfoldable pub narrow_each :
    (offered : ServerMeta → List String)
    → (String → Unmet)
    → List String
    → List Candidate × List Unmet
    → List Candidate × List Unmet
unfolding narrow contains
narrow_each offered unmet [] r = r
narrow_each offered unmet (x ∷ preferred) r =
    narrow_each offered unmet preferred (narrow (λ c. contains x (offered c.0)) (unmet x) r)

abbrev pub is_nil {ℓ} : {A : Type ℓ} → List A → Bool
is_nil [] = true
is_nil (_ ∷ _) = false

-- `_apply_soft_filter`
unfoldable pub apply_soft_filter : RoutingPreferences → List Candidate → List Candidate × List Unmet
unfolding narrow_each narrow contains
apply_soft_filter prefs kept =
    let by_specialty =
      narrow_each (λ s. s.specialties) specialty prefs.preferred_specialties (kept, []) in
    let by_integration =
      narrow_each (λ s. s.integrations) integration prefs.preferred_integrations by_specialty in
    if is_nil prefs.preferred_servers
    then by_integration
    else narrow (λ c. contains c.0.server_id prefs.preferred_servers) preferred_server
        by_integration

-- `rep.avg_latency_ms or float("inf")`, as a fraction; `none` is infinite
abbrev pub latency : ReputationEntry → Option (ℕ × ℕ)
latency rep =
    if nat_beq rep.completed_total 0 || nat_beq (pos_part rep.sum_latency_ms) 0
    then none
    else some (pos_part rep.sum_latency_ms, rep.completed_total)

abbrev pub fraction_lt : Option (ℕ × ℕ) → Option (ℕ × ℕ) → Bool
fraction_lt none b = false
fraction_lt (some a) none = true
fraction_lt (some (a, m)) (some (b, n)) = ltb (a * n) (b * m)

-- the first part of the sort key
abbrev pub value_lt : ServerRank → Candidate → Candidate → Bool
value_lt cheapest (s, _) (t, _) = ltb s.base_rate t.base_rate
value_lt best_reputation (_, a) (_, b) = ltb_ℤ b.reputation a.reputation
value_lt highest_csat (_, a) (_, b) = ltb b.csat a.csat
value_lt lowest_latency (_, a) (_, b) = fraction_lt (latency a) (latency b)

abbrev pub id_lt : Candidate → Candidate → Bool
id_lt (s, _) (t, _) = elim (compare s.server_id t.server_id) [ Ordering.lt ↦ true | _ ↦ false ]

-- the sort key, ties broken by the id
abbrev pub key_lt : ServerRank → Candidate → Candidate → Bool
key_lt rank_by c d = value_lt rank_by c d || (not (value_lt rank_by d c) && id_lt c d)

unfoldable pub insert_ranked : ServerRank → Candidate → List Candidate → List Candidate
insert_ranked rank_by c [] = c ∷ []
insert_ranked rank_by c (d ∷ ds) =
    let rest = d ∷ insert_ranked rank_by c ds in if key_lt rank_by d c then rest else c ∷ d ∷ ds

-- `_rank`: `sorted`, which is stable
unfoldable pub rank : ServerRank → List Candidate → List Candidate
unfolding insert_ranked
rank rank_by [] = []
rank rank_by (c ∷ cs) = insert_ranked rank_by c (rank rank_by cs)

-- the loop of the hard filter: the candidates that are kept, and the rejections
unfoldable pub hard_filter :
    RoutingPreferences → List Candidate → List Candidate × List (String × Reason)
unfolding hard_filter_one
hard_filter prefs [] = ([], [])
hard_filter prefs (c ∷ cs) =
    let (kept, rejections) = hard_filter prefs cs in
    elim (hard_filter_one prefs c) [
      | none ↦ (c ∷ kept, rejections)
      | some reason ↦ (kept, (c.0.server_id, reason) ∷ rejections)
    ]

pub data Requirement : Type 0 where
  nobody_qualified no_live_leaf too_expensive : Requirement

pub record RoutingDecision : Type 0 where
  pub server : Option ServerMeta
  pub leaf : Option MenuLeaf
  pub estimated_hold : ℕ
  pub rejections : List (String × Reason)
  pub soft_preferences_unmet : List Unmet
  pub unmet_requirements : List Requirement

abbrev pub refused : List (String × Reason) → List Unmet → Requirement → RoutingDecision
refused rejections soft_unmet why = record {
  server = none;
  leaf = none;
  estimated_hold = 0;
  rejections = rejections;
  soft_preferences_unmet = soft_unmet;
  unmet_requirements = why ∷ [];
}

-- `succeeded`
abbrev pub succeeded : RoutingDecision → Bool
succeeded d = elim d.server [ none ↦ false | some _ ↦ elim d.leaf [ none ↦ false | some _ ↦ true ] ]
