-- ===== src/Core/Codes/Matching.antt =====
-- What the selectors of `Code.matches` select.
use Prim.Native.Char.{Char, code}
use Prim.Native.String.{String, count, ◌++◌}
use text.Mathlib.TextEquality.{starts_with_iff, Char-path}
use text.Mathlib.TextLemmas.{cons-append, nil-append, append_assoc, length-append, length-cons}
use text.Mathlib.TextBridge.{IsPrefix}
use agent_handshake_protocol.Prelude.{
  ◌≡◌, ◌≢◌, ◌↔◌, ◌⊎◌, inl, inr, refl, sym, ap, subst, ◌∙◌, true, false, ◌==◌, eq_iff, nat_beq, some,
  arith, Bool-cases,
}
use agent_handshake_protocol.Core.Codes.{matches, glob_prefix, before_dot, family}

-- a text of another length than a literal is another text
glob_ne_star : (p : String) → p ++ ".*" ≢ "*"
glob_ne_star p h = absurd (omega (arith, ap count h, length-append p ".*"))

longer_ne_glob : (c : Char) (p : String) → (String.◌∷◌ c p) ++ ".*" ≢ ".*"
longer_ne_glob c p h =
    absurd (omega (arith, ap count h, length-append (String.◌∷◌ c p) ".*", length-cons c p))

eq_false : (s t : String) → s ≢ t → (s == t) ≡ false
eq_false s t h = ground (arith, eq_iff s t)

-- The prefix of a family glob is what stands before the ".*".
glob_prefix-append : (p : String) → glob_prefix (p ++ ".*") ≡ some p
unfolding glob_prefix
glob_prefix-append String.[] = refl
glob_prefix-append (String.◌∷◌ c p) =
    let other : (String.◌∷◌ c (p ++ ".*") == ".*") ≡ false =
      eq_false _ ".*" (λ h. longer_ne_glob c p (cons-append c p ".*" ∙ h)) in
    rw (cons-append, other, glob_prefix-append p, glob_prefix)

-- A family glob selects its family's name and every code below it, and nothing else.
pub matches-glob :
    (code p : String) → (matches code (p ++ ".*") ≡ true) ↔ ((code ≡ p) ⊎ IsPrefix (p ++ ".") code)
unfolding matches
matches-glob code p =
    rw (eq_false (p ++ ".*") "*" (glob_ne_star p), glob_prefix-append p)
      (
        (λ h. elim (Bool-cases (code == p)) [
          | inl same ↦ inl ((eq_iff code p).0 same)
          | inr other ↦ inr ((starts_with_iff code (p ++ ".")).0 (rw other at h))
        ]),
        λ h. elim h [
          | inl same ↦ rw ((eq_iff code p).1 same)
          | inr below ↦ elim (Bool-cases (code == p)) [
            | inl e ↦ rw e
            | inr e ↦ rw (e, (starts_with_iff code (p ++ ".")).1 below)
          ]
        ],
      )

-- A glob of a longer prefix selects no more than the glob of the shorter one.
pub matches-glob_mono :
    (code p r : String)
    → matches code ((p ++ ("." ++ r)) ++ ".*") ≡ true
    → matches code (p ++ ".*") ≡ true
matches-glob_mono code p r h =
    (matches-glob code p).1 (elim ((matches-glob code (p ++ ("." ++ r))).0 h) [
      | inl same ↦ inr (r, append_assoc p "." r ∙ sym same)
      | inr (u, e) ↦ inr (r ++ ("." ++ u), simp append_assoc (simp append_assoc at e))
    ])

dot-append : (c : Char) (s : String) → code c ≡ b'.' → "." ++ s ≡ String.◌∷◌ c s
dot-append c s e =
    cons-append "." "" s ∙ rw nil-append (ap (λ d. String.◌∷◌ d s) (Char-path "." c (sym e)))

named : (code' f : String) → family code' ≡ some f → before_dot code' ≡ f
unfolding family
named code' f h = ground arith

-- a text is what stands before its first dot, or that, a dot and a rest
before_dot_cases : (s : String) → (s ≡ before_dot s) ⊎ IsPrefix (before_dot s ++ ".") s
unfolding before_dot
before_dot_cases String.[] = inl refl
before_dot_cases (String.◌∷◌ c s) = elim (Bool-cases (nat_beq (code c) b'.')) [
  | inl at_dot ↦ inr (s, rw at_dot (dot-append c s (ground arith)))
  | inr other ↦ elim (before_dot_cases s) [
    | inl same ↦ inl (rw other (ap (λ t. String.◌∷◌ c t) same))
    | inr (u, e) ↦ inr (
      u,
      rw other
          (simp (cons-append, append_assoc) (ap (λ t. String.◌∷◌ c t) (simp append_assoc at e))),
    )
  ]
]

-- Every code is selected by the glob of its own family.
pub matches-family : (code' f : String) → family code' ≡ some f → matches code' (f ++ ".*") ≡ true
matches-family code' f h = (matches-glob code' f).1 (
    subst (λ t. (code' ≡ t) ⊎ IsPrefix (t ++ ".") code') (named code' f h) (before_dot_cases code'))
