-- ===== src/Economy/ComputeProvider/Ranking.antt =====
-- ahp/economy/compute_provider.py: the ranking of leaves and `best_leaf`. A score is exact, over the
-- denominators that all the leaves of a ranking share.
use Prim.Native.String.{String}
use agent_handshake_protocol.Prelude.{
  ℕ, ◌+◌, ◌-◌, ◌*◌, Bool, ◌&&◌, ◌||◌, Option, none, some, List, [], ◌∷◌, map, ltb, nat_beq,
  if◌then◌else◌,
}
use agent_handshake_protocol.Prelude.Dict.{Dict, lookup}
use agent_handshake_protocol.Prelude.Lists.{filter}
use agent_handshake_protocol.Prelude.Lists.Sorting.{sort_by}
use agent_handshake_protocol.Prelude.Text.Order.{text_lt}
use agent_handshake_protocol.Economy.ComputeProvider.{MenuLeaf, address, matching_leaves}

-- the least and the greatest of some values
pub record Spread : Type 0 where
  pub lo : ℕ
  pub hi : ℕ

abbrev pub widen : ℕ → Spread → Spread
widen v s = record { lo = if ltb v s.lo then v else s.lo; hi = if ltb s.hi v then v else s.hi }

unfoldable pub spread : ℕ → List ℕ → Spread
spread v [] = record { lo = v; hi = v }
spread v (w ∷ ws) = widen v (spread w ws)

-- the denominator of the normalized values, 1 where they are constant
abbrev pub width : Spread → ℕ
width s = if nat_beq s.lo s.hi then 1 else s.hi - s.lo

-- `_normalize_inverse` and `_normalize_direct`, of one value, as numerators
abbrev pub inverse : Spread → ℕ → ℕ
inverse s v = if nat_beq s.lo s.hi then 1 else s.hi - v

abbrev pub direct : Spread → ℕ → ℕ
direct s v = if nat_beq s.lo s.hi then 1 else v - s.lo

-- the weights of price, latency, capacity and reputation, in percent
pub record Weights : Type 0 where
  pub price : ℕ
  pub latency : ℕ
  pub capacity : ℕ
  pub reputation : ℕ

abbrev pub weighing : ℕ → ℕ → ℕ → ℕ → Weights
weighing p l c r = record { price = p; latency = l; capacity = c; reputation = r }

-- _DEFAULT_WEIGHTS
abbrev pub default_weights : Dict Weights
default_weights =
    ("cheapest", weighing 60 20 15 5)
    ∷ ("lowest_latency", weighing 15 60 20 5)
    ∷ ("best_uptime", weighing 15 20 60 5)
    ∷ ("best_reputation", weighing 15 10 10 65)
    ∷ []

-- `_DEFAULT_WEIGHTS.get(rank_by, _DEFAULT_WEIGHTS["cheapest"])`
unfoldable pub weights_of : String → Weights
unfolding lookup
weights_of rank_by = elim (lookup rank_by default_weights) [
  | none ↦ weighing 60 20 15 5
  | some w ↦ w
]

-- the values that a ranking spreads
pub record Spreads : Type 0 where
  pub price : Spread
  pub latency : Spread
  pub capacity : Spread
  pub reputation : Spread

module _ (provider_reputations : Dict ℕ) where
  -- `reps.get(l.provider_id, 0.5)`
  unfoldable pub reputation_of : MenuLeaf → ℕ
  unfolding lookup
  reputation_of l = elim (lookup l.provider_id provider_reputations) [ none ↦ 500_000 | some r ↦ r ]

  unfoldable pub spreads : MenuLeaf → List MenuLeaf → Spreads
  unfolding spread reputation_of
  spreads l ls = record {
    price = spread l.rate_per_1k_chars (map (λ k. k.rate_per_1k_chars) ls);
    latency = spread l.latency_p95_ms (map (λ k. k.latency_p95_ms) ls);
    capacity = spread l.capacity (map (λ k. k.capacity) ls);
    reputation = spread (reputation_of l) (map reputation_of ls);
  }

  -- a leaf's composite score, times 100 and the four widths
  unfoldable pub score : Spreads → Weights → MenuLeaf → ℕ
  unfolding reputation_of
  score s w l =
      let p = width s.price in
      let t = width s.latency in
      let c = width s.capacity in
      let r = width s.reputation in
      w.price * inverse s.price l.rate_per_1k_chars * t * c * r
      + w.latency * inverse s.latency l.latency_p95_ms * p * c * r
      + w.capacity * direct s.capacity l.capacity * p * t * r
      + w.reputation * direct s.reputation (reputation_of l) * p * t * c

  abbrev pub Scored : Type 0
  Scored = MenuLeaf × ℕ

  -- the sort key: the higher score, then the smaller address
  unfoldable pub better : Scored → Scored → Bool
  unfolding text_lt address
  better (l, a) (k, b) = ltb b a || (nat_beq a b && text_lt (address l) (address k))

  abbrev pub with_scores : Spreads → Weights → List MenuLeaf → List Scored
  with_scores s w ls = map (λ l. (l, score s w l)) ls

  -- `rank_leaves`, of the healthy leaves
  unfoldable pub rank_healthy : Weights → List MenuLeaf → List Scored
  unfolding spreads score better sort_by
  rank_healthy w [] = []
  rank_healthy w (l ∷ ls) = sort_by better (with_scores (spreads l ls) w (l ∷ ls))

  -- `rank_leaves`
  unfoldable pub rank_leaves : (rank_by : String) → List MenuLeaf → List Scored
  unfolding rank_healthy filter weights_of
  rank_leaves rank_by leaves = rank_healthy (weights_of rank_by) (filter (λ l. l.healthy) leaves)

  -- `ranked[0][0] if ranked else None`
  abbrev pub first_leaf : List Scored → Option MenuLeaf
  first_leaf [] = none
  first_leaf (best ∷ _) = some best.0

  -- `best_leaf`
  unfoldable pub best_leaf : (pattern rank_by : String) → List MenuLeaf → Option MenuLeaf
  unfolding matching_leaves rank_leaves
  best_leaf pattern rank_by leaves =
      first_leaf (rank_leaves rank_by (matching_leaves pattern leaves))
