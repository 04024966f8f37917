-- ===== src/Economy/Wallet/Once.antt =====
-- What a hold does, when it is granted, and that it is used up once.
use agent_handshake_protocol.Prelude.{
  ℕ, String, ◌≡◌, ◌≢◌, ◌⊎◌, ◌↔◌, inl, inr, Bool, true, false, none, some, arith, eq_iff,
  Option-cases,
}
use agent_handshake_protocol.Prelude.Int.{ℤ, pos, ◌+ℤ◌, ◌-ℤ◌, ◌≤ℤ◌, abs, int_laws}
use agent_handshake_protocol.Prelude.Dict.{lookup, lookup-insert, lookup-erase}
use agent_handshake_protocol.Prelude.Exec.{Result, ok, err}
use agent_handshake_protocol.Economy.Wallet.{
  WalletState, unknown_hold, available, apply_hold, apply_release, apply_refund, slack,
}

abbrev pub is_ok {ℓ κ} : {E : Type ℓ} {A : Type κ} → Result E A → Bool
is_ok (ok _) = true
is_ok (err _) = false

-- An amount within the slack of `x` is held under the id.
abbrev pub HeldAbout : String → ℤ → WalletState → Type 0
HeldAbout i x s = (v : ℤ) × (lookup i s.holds ≡ some v) × ¬ (pos slack ≤ℤ abs (v -ℤ x))

module _ (now : ℕ) (i : String) (why : String) (s : WalletState) where
  -- A hold is granted exactly when its amount is not negative and either an amount that differs by
  -- less than the slack is already held under that id, or the id is free and the amount available.
  pub hold_granted :
      (x : ℤ)
      → (is_ok (apply_hold now i x why s) ≡ true)
        ↔ ((pos 0 ≤ℤ x) × (HeldAbout i x s ⊎ ((lookup i s.holds ≡ none) × (x ≤ℤ available s))))
  unfolding apply_hold
  hold_granted x = (
    λ h. elim (Option-cases (lookup i s.holds)) [
      | inl free ↦ (ground arith, inr (ground arith))
      | inr (v, found) ↦ (ground arith, inl (v, found, ground arith))
    ],
    λ h. elim h.1 [
      | inl (v, found, near) ↦ ground (arith, h.0)
      | inr (free, fits) ↦ ground (arith, h.0)
    ],
  )

  -- A new hold takes its amount from what is available, leaves the balance and every other hold
  -- alone, and is found under its id.
  pub hold-reserves :
      (x : ℤ) (s' : WalletState)
      → lookup i s.holds ≡ none
      → apply_hold now i x why s ≡ ok s'
      → (available s' +ℤ x ≡ available s)
        × (s'.balance ≡ s.balance)
        × (lookup i s'.holds ≡ some x)
        × ((j : String) → i ≢ j → lookup j s'.holds ≡ lookup j s.holds)
  unfolding apply_hold
  hold-reserves x s' free e = (
    grind int_laws,
    ground arith,
    ground (arith, lookup-insert i i x s.holds, eq_iff i i),
    λ j ne. ground (arith, lookup-insert i j x s.holds, eq_iff i j),
  )

  -- A settlement takes the debit from the balance, gives the rest of the hold back to what is
  -- available, leaves every other hold alone, and no later settlement or refund of the same id goes
  -- through.
  pub settle_once :
      (debit : ℤ) (s' : WalletState)
      → apply_release now i debit why s ≡ ok s'
      → (held : ℤ) × (lookup i s.holds ≡ some held)
        × (s'.balance +ℤ debit ≡ s.balance)
        × (available s' +ℤ debit ≡ available s +ℤ held)
        × ((j : String) → i ≢ j → lookup j s'.holds ≡ lookup j s.holds)
        × ((t : ℕ) (d : ℤ) (r : String) → apply_release t i d r s' ≡ err unknown_hold)
        × ((t : ℕ) (r : String) → apply_refund t i r s' ≡ err unknown_hold)
  unfolding apply_release apply_refund
  settle_once debit s' e = elim (Option-cases (lookup i s.holds)) [
    | inl absent ↦ ground arith
    | inr (held, found) ↦ (
      held,
      found,
      grind (int_laws, found),
      grind (int_laws, found),
      λ j ne. ground (arith, lookup-erase i j s.holds, eq_iff i j),
      λ t d r. ground (arith, lookup-erase i i s.holds, eq_iff i i),
      λ t r. ground (arith, lookup-erase i i s.holds, eq_iff i i),
    )
  ]

  -- A refund gives the whole hold back and debits nothing, and is not repeated.
  pub refund_once :
      (s' : WalletState)
      → apply_refund now i why s ≡ ok s'
      → (held : ℤ) × (lookup i s.holds ≡ some held)
        × (s'.balance ≡ s.balance)
        × (available s' ≡ available s +ℤ held)
        × ((j : String) → i ≢ j → lookup j s'.holds ≡ lookup j s.holds)
        × ((t : ℕ) (r : String) → apply_refund t i r s' ≡ err unknown_hold)
  unfolding apply_refund
  refund_once s' e = elim (Option-cases (lookup i s.holds)) [
    | inl absent ↦ ground arith
    | inr (held, found) ↦ (
      held,
      found,
      ground arith,
      grind (int_laws, found),
      λ j ne. ground (arith, lookup-erase i j s.holds, eq_iff i j),
      λ t r. ground (arith, lookup-erase i i s.holds, eq_iff i i),
    )
  ]
