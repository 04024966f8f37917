-- ===== src/Engine/Scope/Policy.antt =====
-- How one more rule changes a policy.
use agent_handshake_protocol.Prelude.{
  String, ◌≡◌, refl, ap, ◌∙◌, inl, inr, Bool, true, false, ◌&&◌, ◌||◌, List, [], ◌∷◌, ◌++◌, arith,
  Bool-cases, if◌then◌else◌,
}
use agent_handshake_protocol.Prelude.Lists.{filter, any}
use agent_handshake_protocol.Core.Address.{AgentAddress}
use agent_handshake_protocol.Engine.Scope.{
  ScopeRule, ScopePolicy, restrict, covers, allows, is_allowed,
}

filter-append :
    {A : Type 0} (p : A → Bool) (xs ys : List A) → filter p (xs ++ ys) ≡ filter p xs ++ filter p ys
unfolding filter
filter-append p [] ys = refl
filter-append p (x ∷ xs) ys = elim (Bool-cases (p x)) [
  | inl e ↦ rw (e, filter-append p xs ys) refl
  | inr e ↦ rw (e, filter-append p xs ys) refl
]

any-append :
    {A : Type 0} (p : A → Bool) (xs ys : List A) → any p (xs ++ ys) ≡ (any p xs || any p ys)
unfolding any
any-append p [] ys = refl
any-append p (x ∷ xs) ys = ground (arith, any-append p xs ys)

any-filter :
    {A : Type 0} (p q : A → Bool) (xs : List A) → any q (filter p xs) ≡ any (λ x. p x && q x) xs
unfolding any filter
any-filter p q [] = refl
any-filter p q (x ∷ xs) = elim (Bool-cases (p x)) [
  | inl e ↦ rw e (ap (λ b. q x || b) (any-filter p q xs))
  | inr e ↦ rw e (any-filter p q xs)
]

any-both :
    {A : Type 0} (p q : A → Bool) (xs : List A) → any (λ x. p x && q x) xs ≡ true → any p xs ≡ true
unfolding any
any-both p q (x ∷ xs) h = ground (arith, any-both p q xs)
any-both p q [] h = h

-- covered and admitted before, and by the new rule
decisions :
    (c a p q : Bool)
    → (a ≡ true → c ≡ true)
    → (if c || (p || false) then a || (p && q || false) else true)
      ≡ (if p then (c && (if c then a else true)) || q else (if c then a else true))
decisions c a p q h = ground arith

-- is a target covered, and may a source reach it by some rule?
abbrev pub covered : ScopePolicy → AgentAddress → String → Bool
covered rules target code = any (covers target code) rules

abbrev pub admitted : ScopePolicy → AgentAddress → AgentAddress → String → Bool
admitted rules source target code = any (λ r. covers target code r && allows source r) rules

-- A source may reach a target unless a rule covers the target, and no rule that covers it has the
-- source among its allowed ones.
pub is_allowed_iff :
    (rules : ScopePolicy) (source target : AgentAddress) (code : String)
    → is_allowed rules source target code
      ≡ (if covered rules target code then admitted rules source target code else true)
unfolding is_allowed filter any
is_allowed_iff [] source target code = refl
is_allowed_iff (r ∷ rules) source target code = elim (Bool-cases (covers target code r)) [
  | inl e ↦ rw (is_allowed, e, ← any-filter (covers target code) (allows source) rules) refl
  | inr e ↦ rw (is_allowed, e) (is_allowed_iff rules source target code)
]

-- One more rule leaves the targets alone that it does not cover. It adds its sources to those of a
-- target that is covered already, and closes a target that was open to all but its sources.
pub is_allowed-restrict :
    (rules : ScopePolicy) (rule : ScopeRule) (source target : AgentAddress) (code : String)
    → is_allowed (restrict rule rules) source target code ≡ (
        if covers target code rule
        then (covered rules target code && is_allowed rules source target code)
          || allows source rule
        else is_allowed rules source target code)
unfolding restrict any agent_handshake_protocol.Core.Pattern.matches
is_allowed-restrict rules rule source target code =
    let p = covers target code in
    let q : ScopeRule → Bool = λ r. covers target code r && allows source r in
    is_allowed_iff (restrict rule rules) source target code
    ∙ rw
        (
          any-append p rules (rule ∷ []),
          any-append q rules (rule ∷ []),
          is_allowed_iff rules source target code,
        )
        (decisions (covered rules target code) (admitted rules source target code) (p rule)
          (allows source rule) (any-both p (allows source) rules))
