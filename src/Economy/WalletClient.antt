-- ===== src/Economy/WalletClient.antt =====
-- ahp/economy/wallet.py, class `Wallet`: the four methods as transactions of a Redis client.
-- Each reads the state after WATCH and writes it by MULTI/EXEC, eight times at most. Other clients
-- write in between: `schedule` holds what they write during each coming round. What a round whose
-- key was written answers is the client library's choice, the parameter `conflict`.
pub mod Atomic
pub mod Alone
use Prim.Native.String.{◌++◌ as join}
use agent_handshake_protocol.Prelude.{
  ℕ, zero, suc, ◌+◌, ◌-◌, String, Bool, true, false, ◌==◌, none, some, List, [], ◌∷◌, ◌++◌,
}
use agent_handshake_protocol.Prelude.Int.{ℤ}
use agent_handshake_protocol.Prelude.Dict.{Dict, lookup, insert, erase}
use agent_handshake_protocol.Prelude.Exec.{Result, ok, err}
use agent_handshake_protocol.Prelude.Lists.{length, drop, any}
use agent_handshake_protocol.Economy.Wallet.{
  WalletState, WalletError, WalletOp, HistoryEntry, new_wallet, apply_op,
}

-- what another client sets: a wallet's key and its new value
abbrev pub Writes : Type 0
Writes = List (String × WalletState)

-- one round of a transaction, seen from outside
pub record Round : Type 0 where
  pub before_read : Writes
  pub after_read : Writes
  pub elapsed : ℕ

-- The keys of this component. A mirror holds its amount and the time at which it expires.
pub record Redis : Type 0 where
  pub wallets : Dict WalletState
  pub mirrors : Dict (ℤ × ℕ)
  pub clock : ℕ
  pub schedule : List Round

pub data WalletFailure : Type 0 where
  from_state : WalletError → WalletFailure
  watch_error retries_exhausted : WalletFailure

-- what `execute` does when a watched key was written: it answers None, or raises
pub data Conflict : Type 0 where
  answers_none raises : Conflict

-- HOLD_TTL_SECONDS
abbrev pub hold_ttl_seconds : ℕ
hold_ttl_seconds = 300

-- the cap on the persisted history
abbrev pub history_cap : ℕ
history_cap = 50

-- `Wallet.key`
unfoldable pub wallet_key : String → String
wallet_key owner = join "ahp:wallet:" owner

unfoldable pub mirror_key : String → String → String
mirror_key owner hold_id = join "ahp:hold:" (join owner (join ":" hold_id))

-- `history[-50:]`
unfoldable pub last_entries : List HistoryEntry → List HistoryEntry
last_entries h = drop (length h - history_cap) h

-- `to_json` and `from_json`, on the values that the JSON text stands for
unfoldable pub to_json : WalletState → WalletState
unfolding last_entries
to_json s = record s { history = last_entries s.history }

unfoldable pub from_json : String → WalletState → WalletState
from_json owner s = record s { owner = owner }

unfoldable pub get_state : String → Redis → WalletState
unfolding from_json
get_state owner r = elim (lookup (wallet_key owner) r.wallets) [
  | none ↦ new_wallet owner
  | some s ↦ from_json owner s
]

unfoldable pub write_all : Writes → Dict WalletState → Dict WalletState
write_all [] d = d
write_all ((k, s) ∷ ws) d = write_all ws (insert k s d)

unfoldable pub writes_key : String → Writes → Bool
writes_key k [] = false
writes_key k ((j, _) ∷ ws) = elim (j == k) [ true ↦ true | false ↦ writes_key k ws ]

-- no round is left: no other client writes
abbrev pub quiet : Round
quiet = record { before_read = []; after_read = []; elapsed = 0 }

abbrev pub this_round : Redis → Round
this_round r = elim r.schedule [ [] ↦ quiet | a ∷ _ ↦ a ]

abbrev pub later_rounds : List Round → List Round
later_rounds [] = []
later_rounds (_ ∷ rest) = rest

-- the store when the transaction reads
unfoldable pub at_read : Redis → Redis
at_read r = record r {
  wallets = write_all (this_round r).before_read r.wallets;
  clock = r.clock + (this_round r).elapsed;
}

-- the store when the round ends, had the transaction written nothing
unfoldable pub interfere : Redis → Redis
interfere r = record r {
  wallets = write_all (this_round r).after_read (write_all (this_round r).before_read r.wallets);
  clock = r.clock + (this_round r).elapsed;
  schedule = later_rounds r.schedule;
}

-- did another client write the watched key?
unfoldable pub conflicts : String → Redis → Bool
conflicts owner r =
    writes_key (wallet_key owner) ((this_round r).before_read ++ (this_round r).after_read)

-- the keys beside the wallet that a transaction writes
unfoldable pub mirror : String → WalletOp → Redis → Dict (ℤ × ℕ)
mirror owner (WalletOp.hold i x _) r =
    insert (mirror_key owner i) (x, r.clock + hold_ttl_seconds) r.mirrors
mirror owner (WalletOp.settle i _ _) r = erase (mirror_key owner i) r.mirrors
mirror owner (WalletOp.topup _ _) r = r.mirrors
mirror owner (WalletOp.refund i _) r = erase (mirror_key owner i) r.mirrors

unfoldable pub commit : String → WalletOp → WalletState → Redis → Redis
unfolding to_json mirror
commit owner op s r = record r {
  wallets = insert (wallet_key owner) (to_json s) r.wallets;
  mirrors = mirror owner op r;
}

module _ (conflict : Conflict) (owner : String) (op : WalletOp) where
  -- `for _ in range(8)`, on the rounds that are left
  unfoldable pub transact : ℕ → Redis → Result WalletFailure WalletState × Redis
  transact zero r = (err retries_exhausted, r)
  transact (suc n) r = elim (apply_op (at_read r).clock op (get_state owner (at_read r))) [
    | err e ↦ (err (from_state e), interfere r)
    | ok s ↦ elim (conflicts owner r) [
      | false ↦ (ok s, commit owner op s (interfere r))
      | true ↦ elim conflict [
        | answers_none ↦ transact n (interfere r)
        | raises ↦ (err watch_error, interfere r)
      ]
    ]
  ]

module _ (conflict : Conflict) where
  unfoldable pub hold :
      String → String → ℤ → String → Redis → Result WalletFailure WalletState × Redis
  unfolding transact
  hold owner i x why = transact conflict owner (WalletOp.hold i x why) 8

  unfoldable pub settle_against_hold :
      String → String → ℤ → String → Redis → Result WalletFailure WalletState × Redis
  unfolding transact
  settle_against_hold owner i debit why = transact conflict owner (WalletOp.settle i debit why) 8

  unfoldable pub topup : String → ℤ → String → Redis → Result WalletFailure WalletState × Redis
  unfolding transact
  topup owner x why = transact conflict owner (WalletOp.topup x why) 8

  unfoldable pub refund :
      String → String → String → Redis → Result WalletFailure WalletState × Redis
  unfolding transact
  refund owner i why = transact conflict owner (WalletOp.refund i why) 8
