-- ===== src/Economy/Wallet/Invariant.antt =====
-- The four operations of a wallet keep its books in order.
use native.Mathlib.Nat.{add-zero, zero-add, add_assoc}
use agent_handshake_protocol.Prelude.{ℕ, ◌+◌, String, ◌≡◌, refl, inl, inr, arith, Option-cases}
use agent_handshake_protocol.Prelude.Int.{pos, ◌+ℤ◌, ◌≤ℤ◌, int_laws}
use agent_handshake_protocol.Prelude.Dict.{lookup}
use agent_handshake_protocol.Prelude.Exec.{ok}
use agent_handshake_protocol.Economy.Wallet.{
  WalletState, new_wallet, initial_fund, slack, WalletOp, apply_op,
}
use agent_handshake_protocol.Economy.Wallet.Holds.{
  IsHolds, sum_holds, sum_holds_nonneg, insert-IsHolds, sum-insert_new, erase-IsHolds, sum-erase,
  lookup-le-sum,
}

-- The books agree: the holds are non-negative under distinct ids, and `held_total` is their sum.
pub record IsBalanced (s : WalletState) : Type 0 where
  pub holds : IsHolds s.holds
  pub total : s.held_total ≡ sum_holds s.holds

-- The holds are covered by the balance, up to `n` units.
abbrev pub Covers : ℕ → WalletState → Type 0
Covers n s = s.held_total ≤ℤ s.balance +ℤ pos n

-- what an operation may take off the cover: the slack of one settlement
abbrev pub cost : WalletOp → ℕ
cost (WalletOp.settle _ _ _) = slack
cost _ = 0

module _ (now : ℕ) where
  pub apply_op-IsBalanced :
      (op : WalletOp) (s s' : WalletState)
      → IsBalanced s
      → apply_op now op s ≡ ok s'
      → IsBalanced s'
  unfolding apply_op
  apply_op-IsBalanced (WalletOp.hold i x why) s s' b e =
      ground (arith, insert-IsHolds i x s.holds b.holds, sum-insert_new i x s.holds)
  apply_op-IsBalanced (WalletOp.settle i x why) s s' b e = elim (Option-cases (lookup i s.holds)) [
    | inl absent ↦ ground arith
    | inr (v, found) ↦
        grind (int_laws, erase-IsHolds i s.holds b.holds, sum-erase i v s.holds b.holds found)
  ]
  apply_op-IsBalanced (WalletOp.topup x why) s s' b e = ground arith
  apply_op-IsBalanced (WalletOp.refund i why) s s' b e = elim (Option-cases (lookup i s.holds)) [
    | inl absent ↦ ground arith
    | inr (v, found) ↦
        grind (int_laws, erase-IsHolds i s.holds b.holds, sum-erase i v s.holds b.holds found)
  ]

  pub apply_op-Covers :
      (op : WalletOp) (n : ℕ) (s s' : WalletState)
      → IsBalanced s
      → Covers n s
      → apply_op now op s ≡ ok s'
      → Covers (n + cost op) s'
  unfolding apply_op
  apply_op-Covers (WalletOp.refund i why) n s s' b c e = elim (Option-cases (lookup i s.holds)) [
    | inl absent ↦ ground arith
    | inr (v, found) ↦ grind (int_laws, lookup-le-sum i v s.holds b.holds found)
  ]
  apply_op-Covers _ n s s' b c e = grind int_laws

-- The states that a wallet can be in after operations that went through, with the slack of all the
-- settlements among them. Each operation has its own time stamp.
pub data Runs (s : WalletState) : ℕ → WalletState → Type 0 where
  start : Runs s 0 s
  next :
      {n : ℕ} {t u : WalletState} (now : ℕ) (op : WalletOp)
      → Runs s n t
      → apply_op now op t ≡ ok u
      → Runs s (n + cost op) u

-- The books after any run, and the cover of the holds.
pub record IsSound (n : ℕ) (s : WalletState) : Type 0 where
  pub balanced : IsBalanced s
  pub covered : Covers n s

Runs-IsSound :
    {s : WalletState} (k : ℕ) {n : ℕ} {t : WalletState}
    → IsSound k s
    → Runs s n t
    → IsSound (k + n) t
Runs-IsSound k {t = t} h start = rw (add-zero k) h
Runs-IsSound k h (next {n} {t} {u} now op r e) =
    let ih : IsSound (k + n) t = Runs-IsSound k h r in
    record {
      balanced = apply_op-IsBalanced now op t u ih.balanced e;
      covered =
          rw (← add_assoc k n (cost op))
            (apply_op-Covers now op (k + n) t u ih.balanced ih.covered e);
    }

new_wallet-IsSound : (o : String) → IsSound 0 (new_wallet o)
unfolding ◌+ℤ◌ initial_fund
new_wallet-IsSound o = record {
  balanced = record { holds = tt; total = refl };
  covered = omega arith;
}

-- Whatever operations go through on a new wallet, its holds are non-negative, `held_total` is their
-- sum, and the balance falls below the holds, or below zero, by at most one slack per settlement.
pub run-solvent :
    (o : String) (n : ℕ) (s : WalletState)
    → Runs (new_wallet o) n s
    → IsBalanced s × (s.held_total ≤ℤ s.balance +ℤ pos n) × (pos 0 ≤ℤ s.balance +ℤ pos n)
run-solvent o n s r =
    let h : IsSound n s = rw (zero-add n) at (Runs-IsSound 0 (new_wallet-IsSound o) r) in
    let held : sum_holds s.holds ≤ℤ s.balance +ℤ pos n = rw h.balanced.total at h.covered in
    (h.balanced, h.covered, omega (int_laws, sum_holds_nonneg s.holds h.balanced.holds))
