-- ===== src/Prelude/Exec.antt =====
-- Methods that mutate a state and may raise. What was written before a raise stays written, so the
-- state comes back beside the error too.
use mathlib.Core.Path.{◌≡◌, refl, ap}
use mathlib.Core.Logic.{◌⊎◌, inl, inr}

pub data Result {ℓ κ} (E : Type ℓ) (A : Type κ) : Type (ℓ ⊔ κ) where
  ok : A → Result E A
  err : E → Result E A

-- To split on a computed result and keep the equation.
pub Result-cases {ℓ κ} :
    {E : Type ℓ} {A : Type κ} (r : Result E A) → ((a : A) × (r ≡ ok a)) ⊎ ((e : E) × (r ≡ err e))
Result-cases (ok a) = inl (a, refl)
Result-cases (err e) = inr (e, refl)

pub ok-injective {ℓ} : {E A : Type ℓ} {a b : A} → Path (Result E A) (ok a) (ok b) → a ≡ b
ok-injective {a} h = ap (λ r. elim r [ ok x ↦ x | err _ ↦ a ]) h

-- a method that mutates `S` and may raise `E`
abbrev pub Exec {ℓ} : Type ℓ → Type ℓ → Type ℓ → Type ℓ
Exec S E A = S → Result E A × S

module _ {ℓ} {S E : Type ℓ} where
  abbrev pub pure : {A : Type ℓ} → A → Exec S E A
  pure a s = (ok a, s)

  abbrev pub raise : {A : Type ℓ} → E → Exec S E A
  raise e s = (err e, s)

  -- a check that does not touch the state
  abbrev pub lift : {A : Type ℓ} → Result E A → Exec S E A
  lift r s = (r, s)

  -- what is read of the state
  abbrev pub read : {A : Type ℓ} → (S → A) → Exec S E A
  read f s = (ok (f s), s)

  infixl 5 ◌>>=◌ ◌>>◌
  abbrev pub ◌>>=◌ : {A B : Type ℓ} → Exec S E A → (A → Exec S E B) → Exec S E B
  ◌>>=◌ m f s = let (r, s') = m s in elim r [ ok a ↦ f a s' | err e ↦ (err e, s') ]

  abbrev pub ◌>>◌ : {A B : Type ℓ} → Exec S E A → Exec S E B → Exec S E B
  m >> n = m >>= λ _. n

  -- What holds of the state after a check, whether it raises or goes on.
  pub lift-keeps {κ} :
      {A B : Type ℓ} (P : S → Type κ) (r : Result E A) (k : A → Exec S E B) (s : S)
      → P s
      → ((a : A) → r ≡ ok a → P (k a s).1)
      → P ((lift r >>= k) s).1
  lift-keeps P (ok a) k s p h = h a refl
  lift-keeps P (err e) k s p h = p

  pub bind-keeps {κ} :
      {A B : Type ℓ} (P : S → Type κ) (m : Exec S E A) (k : A → Exec S E B) (s : S)
      → P (m s).1
      → ((a : A) → P (k a (m s).1).1)
      → P ((m >>= k) s).1
  bind-keeps {A} {B} P m k s p h =
      let next : Result E A → Result E B × S =
        λ r. elim r [ ok a ↦ k a (m s).1 | err e ↦ (err e, (m s).1) ] in
      elim (m s).0 as (λ r. P (next r).1) [ ok a ↦ h a | err e ↦ p ]
