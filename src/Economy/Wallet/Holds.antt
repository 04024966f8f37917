-- ===== src/Economy/Wallet/Holds.antt =====
-- The sum of a wallet's holds under the updates of the dict.
use agent_handshake_protocol.Prelude.{String, ◌≡◌, refl, none, some, [], ◌∷◌, arith, eq_iff}
use agent_handshake_protocol.Prelude.Int.{ℤ, pos, ◌+ℤ◌, ◌≤ℤ◌, int_laws}
use agent_handshake_protocol.Prelude.Dict.{
  Dict, lookup, insert, erase, lookup-insert, lookup-erase, erase-absent,
}

-- No hold is negative, and no id is listed twice.
abbrev pub IsHolds : Dict ℤ → Type 0
IsHolds [] = Unit
IsHolds ((k, v) ∷ d) = (pos 0 ≤ℤ v) × (lookup k d ≡ none) × IsHolds d

abbrev pub sum_holds : Dict ℤ → ℤ
sum_holds [] = pos 0
sum_holds ((_, v) ∷ d) = v +ℤ sum_holds d

pub sum_holds_nonneg : (d : Dict ℤ) → IsHolds d → pos 0 ≤ℤ sum_holds d
sum_holds_nonneg [] h = omega arith
sum_holds_nonneg ((k, v) ∷ d) h = omega (int_laws, sum_holds_nonneg d h.2, h.0)

pub insert-IsHolds :
    (k : String) (v : ℤ) (d : Dict ℤ) → IsHolds d → pos 0 ≤ℤ v → IsHolds (insert k v d)
unfolding insert
insert-IsHolds k v [] h p = (p, unfold lookup in refl, tt)
insert-IsHolds k v ((j, w) ∷ d) h p =
    ground (arith, eq_iff j k, eq_iff k j, insert-IsHolds k v d h.2 p, lookup-insert k j v d)

pub sum-insert_new :
    (k : String) (v : ℤ) (d : Dict ℤ)
    → lookup k d ≡ none
    → sum_holds (insert k v d) ≡ sum_holds d +ℤ v
unfolding insert lookup
sum-insert_new k v [] e = omega int_laws
sum-insert_new k v ((j, w) ∷ d) e = grind (int_laws, sum-insert_new k v d)

pub erase-IsHolds : (k : String) (d : Dict ℤ) → IsHolds d → IsHolds (erase k d)
unfolding erase
erase-IsHolds k [] h = tt
erase-IsHolds k ((j, w) ∷ d) h =
    ground (arith, erase-IsHolds k d h.2, lookup-erase k j d, eq_iff j k, eq_iff k j)

pub sum-erase :
    (k : String) (v : ℤ) (d : Dict ℤ)
    → IsHolds d
    → lookup k d ≡ some v
    → sum_holds (erase k d) +ℤ v ≡ sum_holds d
unfolding erase lookup
sum-erase k v [] h e = cc
sum-erase k v ((j, w) ∷ d) h e = grind (int_laws, sum-erase k v d h.2, erase-absent k d, eq_iff j k)

-- A hold that is found is one of those that are summed.
pub lookup-le-sum :
    (k : String) (v : ℤ) (d : Dict ℤ)
    → IsHolds d
    → lookup k d ≡ some v
    → (pos 0 ≤ℤ v) × (v ≤ℤ sum_holds d)
unfolding lookup
lookup-le-sum k v [] h e = cc
lookup-le-sum k v ((j, w) ∷ d) h e =
    grind (int_laws, lookup-le-sum k v d h.2, sum_holds_nonneg d h.2)
