-- ===== src/Tests/Economy.antt =====
-- Wallets at concrete inputs.
use agent_handshake_protocol.Prelude.{
  ℕ, ◌+◌, String, ◌≡◌, ◌≢◌, ◌↔◌, ◌⊎◌, refl, true, none, some, [], ◌∷◌,
}
use agent_handshake_protocol.Prelude.Int.{ℤ, pos, ◌+ℤ◌, ◌-ℤ◌, ◌≤ℤ◌}
use agent_handshake_protocol.Prelude.Dict.{lookup, insert, erase}
use agent_handshake_protocol.Prelude.Exec.{ok, err}
use agent_handshake_protocol.Economy.Wallet.{
  WalletState, WalletOp, apply_op, apply_hold, apply_release, apply_refund, available, new_wallet,
  slack, initial_fund, unknown_hold, HistoryEntry,
}
use agent_handshake_protocol.Economy.Wallet.Invariant.{start, next, IsBalanced, run-solvent}
use agent_handshake_protocol.Economy.Wallet.Once.{is_ok, HeldAbout, hold_granted, settle_once}
use agent_handshake_protocol.Economy.WalletClient.{Redis, answers_none, transact}
use agent_handshake_protocol.Economy.WalletClient.Atomic.{Atomic, transact-Atomic}

abbrev pub fresh : WalletState
fresh = new_wallet "alice"

-- ten credits are held
abbrev pub ten : ℤ
ten = pos 400_000_000_000_000_000_000_000_000_000

abbrev pub holding : WalletState
holding = record {
  owner = "alice";
  balance = pos 4_000_000_000_000_000_000_000_000_000_000;
  held_total = ten;
  holds = ("h1", ten) ∷ [];
  history = HistoryEntry.hold "h1" ten "call" 7 ∷ [];
}

-- four credits are paid from them
abbrev pub four : ℤ
four = pos 160_000_000_000_000_000_000_000_000_000

abbrev pub paid : WalletState
paid = record {
  owner = "alice";
  balance = pos 3_840_000_000_000_000_000_000_000_000_000;
  held_total = pos 0;
  holds = [];
  history = HistoryEntry.hold "h1" ten "call" 7 ∷ HistoryEntry.release "h1" ten four "done" 8 ∷ [];
}

abbrev pub refunded : WalletState
refunded = record {
  owner = "alice";
  balance = pos 4_000_000_000_000_000_000_000_000_000_000;
  held_total = pos 0;
  holds = [];
  history = HistoryEntry.hold "h1" ten "call" 7 ∷ HistoryEntry.refund "h1" ten "sorry" 9 ∷ [];
}

hold_runs : apply_op 7 (WalletOp.hold "h1" ten "call") fresh ≡ ok holding
unfolding apply_op lookup insert initial_fund slack ◌+ℤ◌ ◌-ℤ◌
hold_runs = refl

settle_runs : apply_op 8 (WalletOp.settle "h1" four "done") holding ≡ ok paid
unfolding apply_op lookup erase slack ◌+ℤ◌ ◌-ℤ◌
settle_runs = refl

run-solvent_example :
    IsBalanced paid
    × (paid.held_total ≤ℤ paid.balance +ℤ pos (0 + 0 + slack))
    × (pos 0 ≤ℤ paid.balance +ℤ pos (0 + 0 + slack))
run-solvent_example = run-solvent "alice" (0 + 0 + slack) paid (
    next 8 (WalletOp.settle "h1" four "done")
      (next 7 (WalletOp.hold "h1" ten "call") start hold_runs) settle_runs)

hold_granted_example : (is_ok (apply_hold 7 "h1" ten "call" fresh) ≡ true) ↔ (
    (pos 0 ≤ℤ ten)
    × (HeldAbout "h1" ten fresh ⊎ ((lookup "h1" fresh.holds ≡ none) × (ten ≤ℤ available fresh))))
hold_granted_example = hold_granted 7 "h1" "call" fresh ten

settle_once_example :
    (held : ℤ) × (lookup "h1" holding.holds ≡ some held)
    × (paid.balance +ℤ four ≡ holding.balance)
    × (available paid +ℤ four ≡ available holding +ℤ held)
    × ((j : String) → "h1" ≢ j → lookup j paid.holds ≡ lookup j holding.holds)
    × ((t : ℕ) (d : ℤ) (r : String) → apply_release t "h1" d r paid ≡ err unknown_hold)
    × ((t : ℕ) (r : String) → apply_refund t "h1" r paid ≡ err unknown_hold)
unfolding apply_release lookup erase slack ◌+ℤ◌ ◌-ℤ◌
settle_once_example = settle_once 8 "h1" "done" holding four paid refl

-- another client pays alice while her wallet is read, and then nobody writes
abbrev pub busy : Redis
busy = record {
  wallets = [];
  mirrors = [];
  clock = 6;
  schedule =
      record { before_read = []; after_read = ("ahp:wallet:alice", holding) ∷ []; elapsed = 1 }
      ∷ [];
}

transact-Atomic_example :
    Atomic "alice"
      (WalletOp.topup ten "gift")
      busy
      (transact answers_none "alice" (WalletOp.topup ten "gift") 8 busy)
transact-Atomic_example = transact-Atomic answers_none "alice" (WalletOp.topup ten "gift") 8 busy
