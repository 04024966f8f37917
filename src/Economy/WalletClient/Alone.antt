-- ===== src/Economy/WalletClient/Alone.antt =====
-- A transaction while no other client writes, as the other components see it.
use text.Mathlib.TextLemmas.{append_cancel_left}
use native.Mathlib.Nat.{add-zero}
use agent_handshake_protocol.Prelude.{
  ℕ, suc, String, ◌≡◌, ap, inl, inr, false, ◌==◌, [], arith, eq_iff, Bool-cases, if◌then◌else◌,
}
use agent_handshake_protocol.Prelude.Dict.{lookup-insert}
use agent_handshake_protocol.Prelude.Exec.{Result, ok, err, Result-cases}
use agent_handshake_protocol.Economy.Wallet.{WalletState, WalletOp, apply_op}
use agent_handshake_protocol.Economy.WalletClient.{
  Redis, WalletFailure, from_state, Conflict, wallet_key, get_state, write_all, writes_key, at_read,
  interfere, conflicts, commit, transact, to_json, from_json,
}

-- The keys of two owners differ.
pub wallet_key_injective : (a b : String) → wallet_key a ≡ wallet_key b → a ≡ b
unfolding wallet_key
wallet_key_injective a b h = append_cancel_left "ahp:wallet:" a b h

wallet_key_eq : (a b : String) → (wallet_key a == wallet_key b) ≡ (a == b)
wallet_key_eq a b =
    ground (arith, eq_iff (wallet_key a) (wallet_key b), eq_iff a b, wallet_key_injective a b)

-- A commit is read back in its own wallet, with the capped history, and leaves every other wallet as
-- it was.
pub get_state-commit :
    (o o' : String) (op : WalletOp) (s : WalletState) (r : Redis)
    → get_state o' (commit o op s r)
      ≡ (if o == o' then from_json o' (to_json s) else get_state o' r)
unfolding get_state commit
get_state-commit o o' op s r =
    rw (lookup-insert, wallet_key_eq, get_state)
      (elim (Bool-cases (o == o')) [ inl same ↦ rw same | inr other ↦ rw other ])

-- no other client writes
abbrev pub Alone : Redis → Type 0
Alone r = r.schedule ≡ []

-- what a lone transaction does
abbrev pub lone : String → WalletOp → Redis → Result WalletFailure WalletState × Redis
lone o op r = elim (apply_op r.clock op (get_state o r)) [
  | err e ↦ (err (from_state e), r)
  | ok s ↦ (ok s, commit o op s r)
]

interfere-Alone : (r : Redis) → Alone r → interfere r ≡ r
unfolding interfere write_all
interfere-Alone r h =
    rw h (ap (λ (n : ℕ). record r { clock = n; schedule = [] }) (add-zero r.clock))

at_read-Alone : (r : Redis) → Alone r → at_read r ≡ r
unfolding at_read write_all
at_read-Alone r h = rw h (ap (λ (n : ℕ). record r { clock = n; schedule = [] }) (add-zero r.clock))

conflicts-Alone : (o : String) (r : Redis) → Alone r → conflicts o r ≡ false
unfolding conflicts writes_key
conflicts-Alone o r h = rw h

-- A lone transaction is its operation, once, and a write.
pub transact-Alone :
    (c : Conflict) (o : String) (op : WalletOp) (n : ℕ) (r : Redis)
    → Alone r
    → transact c o op (suc n) r ≡ lone o op r
unfolding transact
transact-Alone c o op n r h = elim (Result-cases (apply_op r.clock op (get_state o r))) [
  | inr (x, e) ↦ rw (at_read-Alone r h, e, interfere-Alone r h, transact) (rw (e, lone))
  | inl (s, e) ↦
      rw (at_read-Alone r h, e, conflicts-Alone o r h, interfere-Alone r h, transact) (rw (e, lone))
]
