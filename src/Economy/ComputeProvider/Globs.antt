-- ===== src/Economy/ComputeProvider/Globs.antt =====
-- What a pattern of a binding selects.
use Prim.Native.Char.{Char, code}
use Prim.Native.String.{String, ◌++◌}
use text.Mathlib.TextLemmas.{nil-append, cons-append}
use agent_handshake_protocol.Prelude.{
  ℕ, ◌≡◌, refl, ap, ◌∙◌, ◌⊎◌, inl, inr, true, false, List, [], ◌∷◌, arith, Bool-cases, nat_beq,
}
use agent_handshake_protocol.Prelude.Text.{has, push, split, join}
use agent_handshake_protocol.Prelude.Text.Split.{split-append}
use agent_handshake_protocol.Economy.Tiers.{Tier, tiny, small, medium, big, tier_name}
use agent_handshake_protocol.Economy.ComputeProvider.{
  MenuLeaf, address, at_end, is_star, fields_match, pattern_matches,
}

-- A star stands for any text on one line, every other character for itself; the pattern takes the
-- whole field, but for a line feed at its end.
abbrev pub GlobMatches : (pattern field : String) → Type 0
GlobMatches String.[] s = at_end s ≡ true
GlobMatches (String.◌∷◌ p ps) s =
    ((is_star p ≡ true)
      × (u : String) × (v : String) × (s ≡ u ++ v)
      × (has 10 u ≡ false)
      × GlobMatches ps v)
    ⊎ ((is_star p ≡ false)
        × (c : Char) × (v : String) × (s ≡ String.◌∷◌ c v)
        × (code p ≡ code c)
        × GlobMatches ps v)

fields_match-long :
    (ps : List String) (a b c d : String) (rest : List String)
    → fields_match ps (a ∷ b ∷ c ∷ d ∷ rest) ≡ false
fields_match-long [] a b c d rest = refl
fields_match-long (p ∷ []) a b c d rest = refl
fields_match-long (p ∷ q ∷ []) a b c d rest = refl
fields_match-long (p ∷ q ∷ r ∷ []) a b c d rest = refl
fields_match-long (p ∷ q ∷ r ∷ t ∷ ps) a b c d rest = refl

split-cons : (n : ℕ) (s : String) → (x : String) × (rest : List String) × (split n s ≡ x ∷ rest)
unfolding split push
split-cons n String.[] = (String.[], [], refl)
split-cons n (String.◌∷◌ c s) = elim (Bool-cases (nat_beq (code c) n)) [
  | inl e ↦ (String.[], split n s, rw e refl)
  | inr e ↦ let (x, rest, eq) = split-cons n s in (String.◌∷◌ c x, rest, rw (e, eq) refl)
]

-- a text with the separator has two parts at least
split-some :
    (n : ℕ) (s : String)
    → has n s ≡ true
    → (x : String) × (y : String) × (rest : List String) × (split n s ≡ x ∷ y ∷ rest)
unfolding split has push
split-some n String.[] h = absurd (cc)
split-some n (String.◌∷◌ c s) h = elim (Bool-cases (nat_beq (code c) n)) [
  | inl e ↦ let (x, rest, eq) = split-cons n s in (String.[], x, rest, rw (e, eq) refl)
  | inr e ↦
      let (x, y, rest, eq) = split-some n s (ground arith) in
      (String.◌∷◌ c x, y, rest, rw (e, eq) refl)
]

tier_name-plain : (t : Tier) → has b'.' (tier_name t) ≡ false
unfolding has tier_name
tier_name-plain tiny = refl
tier_name-plain small = refl
tier_name-plain medium = refl
tier_name-plain big = refl

dot_append : (t : String) → "." ++ t ≡ String.◌∷◌ "." t
dot_append t = cons-append "." "" t ∙ ap (String.◌∷◌ ".") (nil-append t)

split-address :
    (l : MenuLeaf)
    → has b'.' l.provider_id ≡ false
    → split b'.' (address l) ≡ l.provider_id ∷ tier_name l.tier ∷ split b'.' l.model
unfolding address join
split-address l plain =
    let tier = tier_name l.tier in
    ap (λ x. split b'.' (l.provider_id ++ x)) (dot_append (tier ++ ("." ++ l.model)))
    ∙ split-append b'.' l.provider_id "." (tier ++ ("." ++ l.model)) plain refl
    ∙ ap (λ x. l.provider_id ∷ split b'.' (tier ++ x)) (dot_append l.model)
    ∙ ap (λ x. l.provider_id ∷ x) (split-append b'.' tier "." l.model (tier_name-plain l.tier) refl)

-- A leaf whose model's name has a dot is selected by no pattern.
pub dotted_model-unmatched :
    (l : MenuLeaf) (pattern : String)
    → has b'.' l.provider_id ≡ false
    → has b'.' l.model ≡ true
    → pattern_matches pattern (address l) ≡ false
unfolding pattern_matches
dotted_model-unmatched l pattern plain dotted =
    let (x, y, rest, eq) = split-some b'.' l.model dotted in
    rw (split-address l plain, eq)
      (fields_match-long (split b'.' pattern) l.provider_id (tier_name l.tier) x y rest)
