-- ===== src/Prelude/Lists/Membership.antt =====
-- `in`, `all` and `any` over lists of texts, and filters.
use agent_handshake_protocol.Prelude.{
  String, ◌≡◌, refl, subst, inl, inr, Bool, true, ◌==◌, eq_iff, List, [], ◌∷◌, arith, Bool-cases,
}
use agent_handshake_protocol.Prelude.Lists.{contains, all, any}

pub all-contains :
    (p : String → Bool) (xs : List String) (x : String)
    → all p xs ≡ true
    → contains x xs ≡ true
    → p x ≡ true
unfolding all contains
all-contains p [] x h m = cc
all-contains p (y ∷ ys) x h m = elim (Bool-cases (y == x)) [
  | inl same ↦ subst (λ z. p z ≡ true) ((eq_iff y x).0 same) (ground arith)
  | inr other ↦ all-contains p ys x (ground arith) (rw other at m)
]

pub any-witness :
    (p : String → Bool) (xs : List String)
    → any p xs ≡ true
    → (x : String) × (contains x xs ≡ true) × (p x ≡ true)
unfolding any contains
any-witness p [] h = absurd (cc)
any-witness p (y ∷ ys) h = elim (Bool-cases (p y)) [
  | inl here ↦ (y, ground (arith, (eq_iff y y).1 refl), here)
  | inr not_here ↦ let (x, m, q) = any-witness p ys (rw not_here at h) in (x, ground arith, q)
]
