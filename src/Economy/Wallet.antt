-- ===== src/Economy/Wallet.antt =====
-- ahp/economy/wallet.py, the pure half: `WalletState` and the four `apply_*` functions.
-- An amount is a whole number of quanta, 4 * 10^28 to the credit: the unit in which the prices of
-- Economy/Pricing.antt are exact.
-- `now` is the answer of `time.time()`.
pub mod Invariant
pub mod Holds
pub mod Once
use agent_handshake_protocol.Prelude.{
  ℕ, ◌*◌, String, Option, none, some, List, [], ◌∷◌, ◌++◌, if◌then◌else◌,
}
use agent_handshake_protocol.Prelude.Int.{ℤ, pos, ◌+ℤ◌, ◌-ℤ◌, ltb_ℤ, abs}
use agent_handshake_protocol.Prelude.Dict.{Dict, lookup, insert, erase}
use agent_handshake_protocol.Prelude.Exec.{Result, ok, err}

pub data WalletError : Type 0 where
  value_error insufficient_funds unknown_hold : WalletError

-- the dicts that `_record` appends, by their "op"
pub data HistoryEntry : Type 0 where
  hold : String → ℤ → String → ℕ → HistoryEntry
  release : String → ℤ → ℤ → String → ℕ → HistoryEntry
  credit : ℤ → String → ℕ → HistoryEntry
  refund : String → ℤ → String → ℕ → HistoryEntry

pub record WalletState : Type 0 where
  pub owner : String
  pub balance : ℤ
  pub held_total : ℤ
  pub holds : Dict ℤ
  pub history : List HistoryEntry

-- 1e-9 credits, the tolerance of the comparisons
unfoldable pub slack : ℕ
slack = 40_000_000_000_000_000_000

-- INITIAL_FUND, 100 credits
unfoldable pub initial_fund : ℤ
unfolding slack
initial_fund = pos (100_000_000_000 * slack)

-- `WalletState(owner=owner)`
abbrev pub new_wallet : String → WalletState
new_wallet owner = record {
  owner = owner;
  balance = initial_fund;
  held_total = pos 0;
  holds = [];
  history = [];
}

abbrev pub available : WalletState → ℤ
available s = s.balance -ℤ s.held_total

abbrev pub note : WalletState → HistoryEntry → List HistoryEntry
note s entry = s.history ++ entry ∷ []

module _ (now : ℕ) where
  unfoldable pub apply_hold :
      (hold_id : String) (amount : ℤ) (reason : String)
      → WalletState
      → Result WalletError WalletState
  apply_hold hold_id amount reason s =
      if ltb_ℤ amount (pos 0) then err value_error else elim (lookup hold_id s.holds) [
        | some prior ↦ if ltb_ℤ (abs (prior -ℤ amount)) (pos slack) then ok s else err value_error
        | none ↦
            if ltb_ℤ (available s) amount
            then err insufficient_funds
            else ok (record s {
              holds = insert hold_id amount s.holds;
              held_total = s.held_total +ℤ amount;
              history = note s (hold hold_id amount reason now);
            })
      ]

  unfoldable pub apply_release :
      (hold_id : String) (debit : ℤ) (reason : String)
      → WalletState
      → Result WalletError WalletState
  apply_release hold_id debit reason s = elim (lookup hold_id s.holds) [
    | none ↦ err unknown_hold
    | some held ↦
        if ltb_ℤ debit (pos 0)
        then err value_error
        else if ltb_ℤ (held +ℤ pos slack) debit
        then err insufficient_funds
        else ok (record s {
          holds = erase hold_id s.holds;
          held_total = s.held_total -ℤ held;
          balance = s.balance -ℤ debit;
          history = note s (release hold_id held debit reason now);
        })
  ]

  unfoldable pub apply_credit :
      (amount : ℤ) (reason : String) → WalletState → Result WalletError WalletState
  apply_credit amount reason s =
      if ltb_ℤ amount (pos 0)
      then err value_error
      else ok
          (record s { balance = s.balance +ℤ amount; history = note s (credit amount reason now) })

  unfoldable pub apply_refund :
      (hold_id : String) (reason : String) → WalletState → Result WalletError WalletState
  apply_refund hold_id reason s = elim (lookup hold_id s.holds) [
    | none ↦ err unknown_hold
    | some held ↦ ok (record s {
      holds = erase hold_id s.holds;
      held_total = s.held_total -ℤ held;
      history = note s (refund hold_id held reason now);
    })
  ]

-- What the methods `hold`, `settle_against_hold`, `topup` and `refund` of `Wallet` do to the state.
pub data WalletOp : Type 0 where
  hold : (hold_id : String) (amount : ℤ) (reason : String) → WalletOp
  settle : (hold_id : String) (debit : ℤ) (reason : String) → WalletOp
  topup : (amount : ℤ) (reason : String) → WalletOp
  refund : (hold_id : String) (reason : String) → WalletOp

unfoldable pub apply_op : ℕ → WalletOp → WalletState → Result WalletError WalletState
unfolding apply_hold apply_release apply_credit apply_refund
apply_op now (WalletOp.hold i x why) = apply_hold now i x why
apply_op now (WalletOp.settle i x why) = apply_release now i x why
apply_op now (WalletOp.topup x why) = apply_credit now x why
apply_op now (WalletOp.refund i why) = apply_refund now i why
