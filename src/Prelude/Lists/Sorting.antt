-- ===== src/Prelude/Lists/Sorting.antt =====
-- `sorted(xs, key=...)`, which is stable, by the order of the keys.
use mathlib.Core.Path.{◌≡◌, refl, sym, subst}
use mathlib.Core.Logic.{inl, inr, ◌⊎◌, ◌≢◌}
use mathlib.Core.Bool.{Bool, true, false}
use mathlib.Core.List.{List, [], ◌∷◌}
use agent_handshake_protocol.Prelude.{Bool-cases, if◌then◌else◌}
use agent_handshake_protocol.Prelude.Lists.{All}

-- One of the elements.
abbrev pub Elem : {A : Type 0} → A → List A → Type 0
Elem a [] = ⊥
Elem a (x ∷ xs) = (x ≡ a) ⊎ Elem a xs

pub All-map :
    {A : Type 0} {P R : A → Type 0} → ((a : A) → P a → R a) → (xs : List A) → All P xs → All R xs
All-map f [] h = tt
All-map f (x ∷ xs) h = (f x h.0, All-map f xs h.1)

pub All-Elem : {A : Type 0} (xs : List A) → All (λ a. Elem a xs) xs
All-Elem [] = tt
All-Elem (x ∷ xs) = (inl refl, All-map (λ a h. inr h) xs (All-Elem xs))

module _ {A : Type 0} (before : A → A → Bool) where
  unfoldable pub insert_by : A → List A → List A
  insert_by x [] = x ∷ []
  insert_by x (y ∷ ys) = let rest = y ∷ insert_by x ys in if before y x then rest else x ∷ y ∷ ys

  unfoldable pub sort_by : List A → List A
  unfolding insert_by
  sort_by [] = []
  sort_by (x ∷ xs) = insert_by x (sort_by xs)

  -- Nothing of the list comes before it.
  abbrev pub IsFirst : A → List A → Type 0
  IsFirst a xs = All (λ x. before x a ≡ false) xs

  module _ (P : A → Type 0) where
    insert-All : (x : A) (ys : List A) → P x → All P ys → All P (insert_by x ys)
    unfolding insert_by
    insert-All x [] p h = (p, tt)
    insert-All x (y ∷ ys) p h = elim (Bool-cases (before y x)) [
      | inl e ↦ rw e (h.0, insert-All x ys p h.1)
      | inr e ↦ rw e (p, h)
    ]

    pub sort-All : (xs : List A) → All P xs → All P (sort_by xs)
    unfolding sort_by
    sort-All [] h = tt
    sort-All (x ∷ xs) h = insert-All x (sort_by xs) h.0 (sort-All xs h.1)

    All-insert : (x : A) (ys : List A) → All P (insert_by x ys) → P x × All P ys
    unfolding insert_by
    All-insert x [] h = h
    All-insert x (y ∷ ys) h = elim (Bool-cases (before y x)) [
      | inl e ↦
          let k : P y × All P (insert_by x ys) = rw e at h in
          let (p, q) = All-insert x ys k.1 in (p, (k.0, q))
      | inr e ↦ rw e at h
    ]

    pub All-sort : (xs : List A) → All P (sort_by xs) → All P xs
    unfolding sort_by
    All-sort [] h = tt
    All-sort (x ∷ xs) h = let (p, q) = All-insert x (sort_by xs) h in (p, All-sort xs q)

  module _ (asymm : (a b : A) → before a b ≡ true → before b a ≡ false)
      (trans : (a b c : A) → before b a ≡ false → before c b ≡ false → before c a ≡ false) where
    -- the head comes first
    abbrev Leads : List A → Type 0
    Leads [] = Unit
    Leads (a ∷ rest) = IsFirst a (a ∷ rest)

    irrefl : (a : A) → before a a ≡ false
    irrefl a = elim (Bool-cases (before a a)) [ inl e ↦ asymm a a e | inr e ↦ e ]

    insert-Leads : (x : A) (ys : List A) → Leads ys → Leads (insert_by x ys)
    unfolding insert_by
    insert-Leads x [] h = (irrefl x, tt)
    insert-Leads x (y ∷ ys) h = elim (Bool-cases (before y x)) [
      | inl e ↦ rw e (irrefl y, insert-All (λ z. before z y ≡ false) x ys (asymm y x e) h.1)
      | inr e ↦ rw e (irrefl x, (e, All-map (λ z k. trans x y z e k) ys h.1))
    ]

    sort-Leads : (xs : List A) → Leads (sort_by xs)
    unfolding sort_by
    sort-Leads [] = tt
    sort-Leads (x ∷ xs) = insert-Leads x (sort_by xs) (sort-Leads xs)

    -- The head of a sorted list is an element that no element comes before.
    pub sort-IsFirst :
        (xs : List A) (a : A) (rest : List A) → sort_by xs ≡ a ∷ rest → Elem a xs × IsFirst a xs
    sort-IsFirst xs a rest e =
        let own : All (λ x. Elem x xs) (a ∷ rest) =
          subst (All (λ x. Elem x xs)) e (sort-All (λ x. Elem x xs) xs (All-Elem xs)) in
        let leads : Leads (a ∷ rest) = subst Leads e (sort-Leads xs) in
        (
          own.0,
          All-sort (λ x. before x a ≡ false) xs
              (subst (All (λ x. before x a ≡ false)) (sym e) leads),
        )

  insert-nonempty : (x : A) (ys : List A) → insert_by x ys ≢ []
  unfolding insert_by
  insert-nonempty x [] = λ h. cc
  insert-nonempty x (y ∷ ys) = elim (Bool-cases (before y x)) [
    | inl e ↦ rw e (λ h. cc)
    | inr e ↦ rw e (λ h. cc)
  ]

  -- Only the empty list is sorted to the empty list.
  pub sort-nil : (xs : List A) → sort_by xs ≡ [] → xs ≡ []
  unfolding sort_by
  sort-nil [] h = refl
  sort-nil (x ∷ xs) h = absurd (insert-nonempty x (sort_by xs) h)
