-- ===== src/Economy/ComputeProvider/Best.antt =====
-- The leaf that a binding resolves to.
use agent_handshake_protocol.Prelude.{
  ℕ, ◌<◌, String, ◌≡◌, refl, sym, ap, subst, ◌⊎◌, inl, inr, Bool, true, false, ◌&&◌, Option, none,
  some, List, [], ◌∷◌, arith, Bool-cases, ltb,
}
use agent_handshake_protocol.Prelude.Dict.{Dict}
use agent_handshake_protocol.Prelude.Lists.{All, filter}
use agent_handshake_protocol.Prelude.Lists.Sorting.{
  Elem, IsFirst, All-map, sort_by, sort-IsFirst, sort-nil,
}
use agent_handshake_protocol.Prelude.Lists.Selection.{
  filter-filter, Elem-filter, All-filter, filter-nil, Elem-map, All-map_of,
}
use agent_handshake_protocol.Prelude.Text.Order.{text_lt, text_lt_asymm, not-text_lt_trans}
use agent_handshake_protocol.Economy.ComputeProvider.{
  MenuLeaf, address, pattern_matches, matching_leaves,
}
use agent_handshake_protocol.Economy.ComputeProvider.Ranking.{
  Weights, weights_of, Spreads, spreads, score, Scored, better, with_scores, rank_healthy,
  rank_leaves, first_leaf, best_leaf,
}

-- a healthy leaf of the pattern
abbrev pub eligible : String → MenuLeaf → Bool
eligible pattern l = pattern_matches pattern (address l) && l.healthy

module _ (reps : Dict ℕ) where
  -- the score of a leaf among the leaves of a ranking
  abbrev pub score_among : List MenuLeaf → (rank_by : String) → MenuLeaf → ℕ
  score_among [] rank_by l = 0
  score_among (k ∷ ks) rank_by l = score reps (spreads reps k ks) (weights_of rank_by) l

  -- The second leaf has the lower score, or the same score and no smaller address.
  abbrev pub Outranks : (MenuLeaf → ℕ) → MenuLeaf → MenuLeaf → Type 0
  Outranks points b k =
      (points k < points b) ⊎ ((points k ≡ points b) × (text_lt (address k) (address b) ≡ false))

  -- No leaf is eligible; or the leaf is, and outranks each eligible leaf.
  abbrev pub IsBest : (pattern rank_by : String) → List MenuLeaf → Option MenuLeaf → Type 0
  IsBest pattern rank_by leaves none = All (λ k. eligible pattern k ≡ false) leaves
  IsBest pattern rank_by leaves (some b) =
      Elem b leaves
      × (eligible pattern b ≡ true)
      × All
          (λ k.
            (eligible pattern k ≡ false)
            ⊎ Outranks (score_among (filter (eligible pattern) leaves) rank_by) b k)
          leaves

  better_asymm : (a b : Scored reps) → better reps a b ≡ true → better reps b a ≡ false
  unfolding better
  better_asymm (l, a) (k, b) h = ground (arith, text_lt_asymm (address l) (address k))

  not-better_trans :
      (a b c : Scored reps)
      → better reps b a ≡ false
      → better reps c b ≡ false
      → better reps c a ≡ false
  unfolding better
  not-better_trans (l, a) (k, b) (j, c) h g =
      ground (arith, not-text_lt_trans (address l) (address k) (address j))

  outranked :
      (points : MenuLeaf → ℕ) (b k : MenuLeaf)
      → better reps (k, points k) (b, points b) ≡ false
      → Outranks points b k
  unfolding better
  outranked points b k h = elim (Bool-cases (ltb (points k) (points b))) [
    | inl e ↦ inl (ground arith)
    | inr e ↦ inr (ground arith, ground arith)
  ]

  head-IsBest :
      (s : Spreads) (w : Weights) (ls : List MenuLeaf) (b : Scored reps) (rest : List (Scored reps))
      → sort_by (better reps) (with_scores reps s w ls) ≡ b ∷ rest
      → Elem b.0 ls × All (Outranks (score reps s w) b.0) ls
  head-IsBest s w ls b rest e =
      let (own, first) =
        sort-IsFirst (better reps) better_asymm not-better_trans (with_scores reps s w ls) b rest
          e in
      let (l, m, same) = Elem-map (λ l. (l, score reps s w l)) b ls own in
      (
        subst (λ x. Elem x ls) (ap (λ p. p.0) same) m,
        subst (λ (x : MenuLeaf). All (Outranks (score reps s w) x) ls) (ap (λ p. p.0) same)
            (All-map (λ k h. outranked (score reps s w) l k h) ls
              (All-map_of (λ k. (k, score reps s w k))
                (λ y. better reps y (l, score reps s w l) ≡ false) ls
                (subst (λ y. IsFirst (better reps) y (with_scores reps s w ls)) (sym same) first))),
      )

  first-IsBest :
      (pattern rank_by : String) (leaves ls : List MenuLeaf) (ranked : List (Scored reps))
      → filter (eligible pattern) leaves ≡ ls
      → rank_healthy reps (weights_of rank_by) ls ≡ ranked
      → IsBest pattern rank_by leaves (first_leaf reps ranked)
  unfolding rank_healthy
  first-IsBest pattern rank_by leaves [] [] e h = filter-nil (eligible pattern) leaves e
  first-IsBest pattern rank_by leaves [] (b ∷ rest) e h = absurd (cc)
  first-IsBest pattern rank_by leaves (l ∷ ls) [] e h =
      let empty : with_scores reps (spreads reps l ls) (weights_of rank_by) (l ∷ ls) ≡ [] =
        sort-nil (better reps) _ h in
      absurd (cc)
  first-IsBest pattern rank_by leaves (l ∷ ls) (b ∷ rest) e h =
      let (own, outranks) =
        head-IsBest (spreads reps l ls) (weights_of rank_by) (l ∷ ls) b rest h in
      let (m, t) =
        Elem-filter (eligible pattern) b.0 leaves (subst (λ x. Elem b.0 x) (sym e) own) in
      let selected : All (Outranks (score_among (filter (eligible pattern) leaves) rank_by) b.0)
          (filter (eligible pattern) leaves) =
        subst (λ x. All (Outranks (score_among x rank_by) b.0) x) (sym e) outranks in
      (m, t, All-filter (eligible pattern) _ leaves selected)

  -- A binding resolves to an eligible leaf of the highest score among the eligible leaves (all of
  -- them healthy and of the pattern), the one with the smallest address if several have it, and to
  -- none only if no leaf is eligible.
  pub best_leaf-IsBest :
      (pattern rank_by : String) (leaves : List MenuLeaf)
      → IsBest pattern rank_by leaves (best_leaf reps pattern rank_by leaves)
  unfolding best_leaf rank_leaves matching_leaves
  best_leaf-IsBest pattern rank_by leaves =
      subst
        (λ ls.
          IsBest pattern rank_by leaves
            (first_leaf reps (rank_healthy reps (weights_of rank_by) ls)))
        (sym (filter-filter (λ l. pattern_matches pattern (address l)) (λ l. l.healthy) leaves))
        (first-IsBest pattern rank_by leaves _ _ refl refl)
