-- ===== src/Economy/WalletClient/Atomic.antt =====
-- A transaction is atomic for any writes of other clients.
use agent_handshake_protocol.Prelude.{
  ℕ, zero, suc, String, ◌≡◌, refl, inl, inr, false, [], ◌∷◌, ◌++◌, arith, eq_iff, Bool-cases,
}
use agent_handshake_protocol.Prelude.Dict.{Dict, lookup, insert, lookup-insert}
use agent_handshake_protocol.Prelude.Exec.{Result, ok, err, Result-cases}
use agent_handshake_protocol.Economy.Wallet.{WalletState, WalletOp, apply_op}
use agent_handshake_protocol.Economy.WalletClient.{
  Writes, Redis, WalletFailure, from_state, watch_error, retries_exhausted, Conflict, answers_none,
  raises, wallet_key, get_state, write_all, writes_key, this_round, at_read, interfere, conflicts,
  commit, transact,
}

lookup-write_all :
    (k : String) (ws : Writes) (d : Dict WalletState)
    → writes_key k ws ≡ false
    → lookup k (write_all ws d) ≡ lookup k d
unfolding write_all writes_key
lookup-write_all k [] d h = refl
lookup-write_all k ((j, s) ∷ ws) d h =
    ground (arith, lookup-write_all k ws (insert j s d), lookup-insert j k s d, eq_iff j k)

writes_key-append :
    (k : String) (a b : Writes)
    → writes_key k (a ++ b) ≡ false
    → (writes_key k a ≡ false) × (writes_key k b ≡ false)
unfolding writes_key
writes_key-append k [] b h = (refl, h)
writes_key-append k ((j, s) ∷ a) b h = ground (arith, writes_key-append k a b)

-- Where no other client wrote the watched key, what was read is what is there at the end.
get_state-interfere :
    (o : String) (r : Redis)
    → conflicts o r ≡ false
    → get_state o (interfere r) ≡ get_state o (at_read r)
unfolding get_state interfere at_read conflicts
get_state-interfere o r h =
    let w = this_round r in
    let (_, b) = writes_key-append (wallet_key o) w.before_read w.after_read h in
    rw (
      lookup-write_all (wallet_key o) w.after_read (write_all w.before_read r.wallets) b,
      get_state,
    )

clock-interfere : (r : Redis) → (interfere r).clock ≡ (at_read r).clock
unfolding interfere at_read
clock-interfere r = refl

-- the store after the writes of other clients in `k` rounds
abbrev pub interfere_times : ℕ → Redis → Redis
interfere_times zero r = r
interfere_times (suc k) r = interfere_times k (interfere r)

-- What a transaction that began at `r` has done: it has written the state that its operation makes
-- of the wallet as it stands at that moment, or it has failed and written nothing.
pub data Atomic (o : String) (op : WalletOp) (r : Redis)
    : Result WalletFailure WalletState × Redis → Type 0 where
  wrote :
      (k : ℕ) (s : WalletState)
      → apply_op (interfere_times k r).clock op (get_state o (interfere_times k r)) ≡ ok s
      → Atomic o op r (ok s, commit o op s (interfere_times k r))
  failed : (k : ℕ) (e : WalletFailure) → Atomic o op r (err e, interfere_times k r)

later-Atomic :
    (o : String) (op : WalletOp) (r : Redis) {x : Result WalletFailure WalletState × Redis}
    → Atomic o op (interfere r) x
    → Atomic o op r x
later-Atomic o op r (wrote k s e) = wrote (suc k) s e
later-Atomic o op r (failed k e) = failed (suc k) e

-- after a conflict the library decides whether there is one more round
conflict-Atomic :
    (c : Conflict) (o : String) (op : WalletOp) (r : Redis)
    {again : Result WalletFailure WalletState × Redis}
    → Atomic o op (interfere r) again
    → Atomic o op r (elim c [ answers_none ↦ again | raises ↦ (err watch_error, interfere r) ])
conflict-Atomic answers_none o op r h = later-Atomic o op r h
conflict-Atomic raises o op r h = failed 1 watch_error

-- Whatever other clients write and when, and whatever the client library does on a conflict, a
-- transaction writes nothing, or it applies its operation to the wallet as it stands when it is
-- written.
pub transact-Atomic :
    (c : Conflict) (o : String) (op : WalletOp) (n : ℕ) (r : Redis)
    → Atomic o op r (transact c o op n r)
unfolding transact
transact-Atomic c o op zero r = failed 0 retries_exhausted
transact-Atomic c o op (suc n) r =
    elim (Result-cases (apply_op (at_read r).clock op (get_state o (at_read r)))) [
      | inr (x, e) ↦ rw (e, transact) (failed 1 (from_state x))
      | inl (s, e) ↦ elim (Bool-cases (conflicts o r)) [
        | inl hit ↦
            rw (e, hit, transact)
              (conflict-Atomic c o op r (transact-Atomic c o op n (interfere r)))
        | inr free ↦
            rw (e, free, transact)
              (wrote 1 s (rw (get_state-interfere o r free, clock-interfere r) e))
      ]
    ]
