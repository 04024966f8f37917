-- ===== src/Prelude/Lists/Selection.antt =====
-- What is known of the elements of a filtered and of a mapped list.
use mathlib.Core.Path.{◌≡◌, refl, subst}
use mathlib.Core.Logic.{inl, inr, ◌⊎◌}
use mathlib.Core.Bool.{Bool, true, false, ◌&&◌}
use mathlib.Core.List.{List, [], ◌∷◌, map}
use agent_handshake_protocol.Prelude.{Bool-cases}
use agent_handshake_protocol.Prelude.Lists.{All, filter}
use agent_handshake_protocol.Prelude.Lists.Sorting.{Elem}

module _ {A : Type 0} where
  pub filter-filter :
      (p q : A → Bool) (xs : List A) → filter q (filter p xs) ≡ filter (λ x. p x && q x) xs
  unfolding filter
  filter-filter p q [] = refl
  filter-filter p q (x ∷ xs) = elim (Bool-cases (p x)) [
    | inl e ↦ rw e (rw (filter-filter p q xs))
    | inr e ↦ rw e (filter-filter p q xs)
  ]

  pub Elem-filter :
      (p : A → Bool) (a : A) (xs : List A) → Elem a (filter p xs) → Elem a xs × (p a ≡ true)
  unfolding filter
  Elem-filter p a [] h = elim h [ ]
  Elem-filter p a (x ∷ xs) h = elim (Bool-cases (p x)) [
    | inr e ↦
        let k : Elem a (filter p xs) = rw e at h in let (m, t) = Elem-filter p a xs k in (inr m, t)
    | inl e ↦
        let k : (x ≡ a) ⊎ Elem a (filter p xs) = rw e at h in
        elim k [
          | inl same ↦ (inl same, subst (λ z. p z ≡ true) same e)
          | inr later ↦ let (m, t) = Elem-filter p a xs later in (inr m, t)
        ]
  ]

  -- What holds of all that is selected holds of all that is not left out.
  pub All-filter :
      (p : A → Bool) (P : A → Type 0) (xs : List A)
      → All P (filter p xs)
      → All (λ x. (p x ≡ false) ⊎ P x) xs
  unfolding filter
  All-filter p P [] h = tt
  All-filter p P (x ∷ xs) h = elim (Bool-cases (p x)) [
    | inr e ↦ (inl e, All-filter p P xs (rw e at h))
    | inl e ↦ let k : P x × All P (filter p xs) = rw e at h in (inr k.0, All-filter p P xs k.1)
  ]

  pub filter-nil : (p : A → Bool) (xs : List A) → filter p xs ≡ [] → All (λ x. p x ≡ false) xs
  unfolding filter
  filter-nil p [] h = tt
  filter-nil p (x ∷ xs) h = elim (Bool-cases (p x)) [
    | inr e ↦ (e, filter-nil p xs (rw e at h))
    | inl e ↦ let k : x ∷ filter p xs ≡ [] = rw e at h in absurd (cc)
  ]

  module _ {B : Type 0} (f : A → B) where
    pub Elem-map : (b : B) (xs : List A) → Elem b (map f xs) → (a : A) × Elem a xs × (f a ≡ b)
    Elem-map b [] h = elim h [ ]
    Elem-map b (x ∷ xs) (inl e) = (x, inl refl, e)
    Elem-map b (x ∷ xs) (inr h) = let (a, m, e) = Elem-map b xs h in (a, inr m, e)

    pub All-map_of : (P : B → Type 0) (xs : List A) → All P (map f xs) → All (λ a. P (f a)) xs
    All-map_of P [] h = tt
    All-map_of P (x ∷ xs) h = (h.0, All-map_of P xs h.1)
