-- ===== src/Core/Compatibility/Requirements.antt =====
-- What the table of requirements promises of every code.
use Prim.Native.String.{String}
use agent_handshake_protocol.Prelude.{
  ◌≡◌, refl, inl, inr, Bool, true, false, ◌==◌, ◌||◌, ◌&&◌, not, some, eq_iff, [], ◌∷◌, arith,
  Option-cases,
}
use agent_handshake_protocol.Prelude.Dict.{Dict, lookup, AllEntries, AllEntries-lookup}
use agent_handshake_protocol.Prelude.Text.{has, intersects}
use agent_handshake_protocol.Core.Address.{AgentAddress}
use agent_handshake_protocol.Core.Codes.{is_error}
use agent_handshake_protocol.Core.Compatibility.{code_requirements, required_tiers, can_route}

-- a test of every entry of a table
check : (String → String → Bool) → Dict String → Bool
check test [] = true
check test ((k, v) ∷ d) = test k v && check test d

check-AllEntries :
    (test : String → String → Bool) (d : Dict String)
    → check test d ≡ true
    → AllEntries (λ k v. test k v ≡ true) d
unfolding check
check-AllEntries test [] h = tt
check-AllEntries test ((k, v) ∷ d) h = ground (arith, check-AllEntries test d)

is_error_code : String → Bool
is_error_code k = elim (is_error k) [ some true ↦ true | _ ↦ false ]

error_only_s : String → String → Bool
error_only_s k v = not (is_error_code k) || v == "s"

errors_table : check error_only_s code_requirements ≡ true
unfolding check error_only_s is_error_code is_error code_requirements
errors_table = refl

-- one tier is shared with "s" exactly if it is "s"
intersects_s : (a : String) → intersects a "s" ≡ has b's' a
unfolding intersects has
intersects_s String.[] = refl
intersects_s (String.◌∷◌ c a) = ground (arith, intersects_s a)

only_s :
    (code tiers : String) → is_error code ≡ some true → error_only_s code tiers ≡ true → tiers ≡ "s"
unfolding error_only_s is_error_code
only_s code tiers e h = ground (arith, eq_iff tiers "s")

-- Whatever code of the error family is asked about, known or not, a target needs the tier `s`, so
-- an error reaches exactly the targets that accept strings.
pub can_route-error :
    (source target : AgentAddress) (code : String)
    → is_error code ≡ some true
    → can_route source target code ≡ has b's' target.accept
unfolding can_route required_tiers
can_route-error source target code e = elim (Option-cases (lookup code code_requirements)) [
  | inl unknown ↦ rw (unknown, required_tiers) (intersects_s target.accept)
  | inr (tiers, known) ↦
      let only =
        AllEntries-lookup (λ k v. error_only_s k v ≡ true) code tiers code_requirements
          (check-AllEntries error_only_s code_requirements errors_table) known in
      rw (known, required_tiers, only_s code tiers e only) (intersects_s target.accept)
]

some_tier : String → String → Bool
some_tier k v = intersects "sjbe" v

tiers_table : check some_tier code_requirements ≡ true
unfolding check some_tier code_requirements intersects
tiers_table = refl

-- An agent that accepts all four tiers can receive every code, known or not.
pub can_route_all :
    (source target : AgentAddress) (code : String)
    → target.accept ≡ "sjbe"
    → can_route source target code ≡ true
unfolding can_route required_tiers some_tier
can_route_all source target code full =
    rw full (elim (Option-cases (lookup code code_requirements)) [
      | inl unknown ↦ rw (unknown, required_tiers) (unfold intersects in refl)
      | inr (tiers, known) ↦
          rw (known, required_tiers)
            (AllEntries-lookup (λ k v. some_tier k v ≡ true) code tiers code_requirements
              (check-AllEntries some_tier code_requirements tiers_table) known)
    ])
