-- ===== src/Broker/Settlement/Refused.antt =====
-- A settlement that is refused.
use Prim.Native.String.{◌++◌ as join}
use agent_handshake_protocol.Prelude.{String, ◌≡◌, refl, ap, ◌∙◌, true, false, Option, none, some}
use agent_handshake_protocol.Prelude.Int.{ℤ, pos, ◌+ℤ◌, ◌<ℤ◌, ltb_ℤ, int_laws}
use agent_handshake_protocol.Prelude.Dict.{lookup}
use agent_handshake_protocol.Prelude.Exec.{ok, err, ◌>>◌}
use agent_handshake_protocol.Economy.Pricing.{Settlement}
use agent_handshake_protocol.Economy.Wallet.{
  slack, apply_op, apply_release, WalletOp, WalletError, insufficient_funds, unknown_hold,
}
use agent_handshake_protocol.Economy.WalletClient.{
  Redis, WalletFailure, Conflict, get_state, from_state,
}
use agent_handshake_protocol.Economy.WalletClient.Alone.{Alone, lone}
use agent_handshake_protocol.Broker.Settlement.{
  Step, done, release, settle, credit_positive, compute_target, broker_wallet, commons_wallet,
}
use agent_handshake_protocol.Broker.Settlement.Ledger.{settle-Alone}

pub then-err :
    (step rest : Step) (r : Redis) {e : WalletFailure}
    → step r ≡ (err e, r)
    → (do step; rest) r ≡ (err e, r)
then-err step rest r h = ap (λ q. elim q.0 [ ok _ ↦ rest q.1 | err y ↦ (err y, q.1) ]) h

refused_by :
    (c : Conflict) (caller i : String) (s : Settlement) (server : String) (compute : Option String)
    (r : Redis) (e : WalletError)
    → Alone r
    → apply_op r.clock
        (WalletOp.settle i (pos s.pre_tax) (join "settle hold " i))
        (get_state caller r)
      ≡ err e
    → settle c caller i s server compute r ≡ (err (from_state e), r)
unfolding settle release
refused_by c caller i s server compute r e h eq =
    let why = join "settle hold " i in
    let refusal : lone caller (WalletOp.settle i (pos s.pre_tax) why) r ≡ (err (from_state e), r) =
      rw (eq, lone) refl in
    let target = compute_target server compute in
    let payments : Step = (do
      credit_positive c server s.to_server (join "server share of " i)
      credit_positive c target (pos s.to_compute) (join "compute share of " i)
      credit_positive c broker_wallet (pos s.to_broker) (join "broker tax " i)
      credit_positive c commons_wallet (pos s.to_commons) (join "commons tax " i)) in
    then-err (release c caller i (pos s.pre_tax) why) payments r
      (ap done (settle-Alone c caller i (pos s.pre_tax) why r h ∙ refusal))

-- While no other client writes, a settlement whose price exceeds the hold and the slack raises
-- InsufficientFunds, one of an unknown hold raises UnknownHold, and both leave the store as it was.
pub settle_refused :
    (c : Conflict) (caller i : String) (s : Settlement) (server : String) (compute : Option String)
    (r : Redis)
    → Alone r
    → (lookup i (get_state caller r).holds ≡ none
        → settle c caller i s server compute r ≡ (err (from_state unknown_hold), r))
      × ((held : ℤ)
          → lookup i (get_state caller r).holds ≡ some held
          → held +ℤ pos slack <ℤ pos s.pre_tax
          → settle c caller i s server compute r ≡ (err (from_state insufficient_funds), r))
unfolding apply_op
settle_refused c caller i s server compute r h = (
  λ missing.
      refused_by c caller i s server compute r unknown_hold h
        (rw (apply_op, apply_release, missing) refl),
  λ held found over.
      let low : ltb_ℤ (pos s.pre_tax) (pos 0) ≡ false = grind int_laws in
      let high : ltb_ℤ (held +ℤ pos slack) (pos s.pre_tax) ≡ true = grind int_laws in
      refused_by c caller i s server compute r insufficient_funds h
        (rw (apply_op, apply_release, found, low, high) refl),
)
