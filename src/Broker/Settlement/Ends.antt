-- ===== src/Broker/Settlement/Ends.antt =====
-- A settlement, and the whole settlement of a call, either free the hold or change no wallet.
use Prim.Native.String.{◌++◌ as join}
use agent_handshake_protocol.Prelude.{String, ◌≡◌, refl, sym, ap, subst, ◌∙◌, ◌⊎◌, inl, inr, Option}
use agent_handshake_protocol.Prelude.Int.{pos}
use agent_handshake_protocol.Prelude.Dict.{lookup}
use agent_handshake_protocol.Prelude.Exec.{ok, err, ◌>>◌, bind-keeps, Result-cases}
use agent_handshake_protocol.Economy.Pricing.{Settlement}
use agent_handshake_protocol.Economy.Wallet.{WalletOp, apply_op}
use agent_handshake_protocol.Economy.WalletClient.{
  Redis, WalletFailure, from_state, Conflict, get_state, commit,
}
use agent_handshake_protocol.Economy.WalletClient.Alone.{Alone, lone}
use agent_handshake_protocol.Broker.Settlement.{
  Step, done, release, credit_positive, settle, compute_target, broker_wallet, commons_wallet,
}
use agent_handshake_protocol.Broker.Settlement.Ledger.{settle-Alone}
use agent_handshake_protocol.Broker.Settlement.Refused.{then-err}
use agent_handshake_protocol.Broker.Settlement.Holds.{
  Frees, Keeps, credit-Keeps, settle-holds, erased-Frees,
}

Keeps-trans : (o : String) (r s t : Redis) → Keeps o r s → Keeps o s t → Keeps o r t
Keeps-trans o r s t h k = record { alone = k.alone; same = k.same ∙ h.same }

pub Frees-Keeps : (o j : String) (r s t : Redis) → Frees o j r s → Keeps o s t → Frees o j r t
Frees-Keeps o j r s t h k = record {
  touches = record {
    alone = k.alone;
    others = λ i other. ap (lookup i) k.same ∙ h.touches.others i other;
  };
  freed = ap (lookup j) k.same ∙ h.freed;
}

then-Keeps :
    (o : String) (step rest : Step) (r : Redis)
    → Keeps o r (step r).1
    → ((r' : Redis) → Alone r' → Keeps o r' (rest r').1)
    → Keeps o r ((do step; rest) r).1
then-Keeps o step rest r first second =
    bind-keeps (λ r'. Keeps o r r') step (λ _. rest) r first
      (λ _. Keeps-trans o r (step r).1 (rest (step r).1).1 first (second (step r).1 first.alone))

then-ok_of : (step rest : Step) (r r' : Redis) → step r ≡ (ok tt, r') → (do step; rest) r ≡ rest r'
then-ok_of step rest r r' h = ap (λ q. elim q.0 [ ok _ ↦ rest q.1 | err y ↦ (err y, q.1) ]) h

module _ (c : Conflict) (o j : String) (x : Settlement) (server : String)
    (compute : Option String) where
  -- the four credits of a settlement
  payments : Step
  payments = do
    credit_positive c server x.to_server (join "server share of " j)
    credit_positive c (compute_target server compute) (pos x.to_compute)
        (join "compute share of " j)
    credit_positive c broker_wallet (pos x.to_broker) (join "broker tax " j)
    credit_positive c commons_wallet (pos x.to_commons) (join "commons tax " j)

  payments-Keeps : (r : Redis) → Alone r → Keeps o r (payments r).1
  unfolding payments
  payments-Keeps r h =
      let target = compute_target server compute in
      let to_compute = credit_positive c target (pos x.to_compute) (join "compute share of " j) in
      let to_broker = credit_positive c broker_wallet (pos x.to_broker) (join "broker tax " j) in
      let to_commons =
        credit_positive c commons_wallet (pos x.to_commons) (join "commons tax " j) in
      then-Keeps o (credit_positive c server x.to_server (join "server share of " j))
        (do to_compute; to_broker; to_commons) r
        (credit-Keeps c o server x.to_server (join "server share of " j) r h)
        λ r1 h1.
          then-Keeps o to_compute (do to_broker; to_commons) r1
            (credit-Keeps c o target (pos x.to_compute) (join "compute share of " j) r1 h1)
            λ r2 h2.
              then-Keeps o to_broker to_commons r2
                (credit-Keeps c o broker_wallet (pos x.to_broker) (join "broker tax " j) r2 h2)
                λ r3 h3.
                  credit-Keeps c o commons_wallet (pos x.to_commons) (join "commons tax " j) r3 h3

  -- A settlement frees its hold, or is refused and changes nothing.
  pub settle-ends :
      (r : Redis)
      → Alone r
      → Frees o j r (settle c o j x server compute r).1
        ⊎ ((e : WalletFailure) × (settle c o j x server compute r ≡ (err e, r)))
  unfolding settle payments release
  settle-ends r h =
      let why = join "settle hold " j in
      let op = WalletOp.settle j (pos x.pre_tax) why in
      let ran = settle-Alone c o j (pos x.pre_tax) why r h in
      elim (Result-cases (apply_op r.clock op (get_state o r))) [
        | inr (y, e) ↦
            let refused : lone o op r ≡ (err (from_state y), r) = rw (e, lone) refl in
            inr (
              from_state y,
              then-err (release c o j (pos x.pre_tax) why) payments r (ap done (ran ∙ refused)),
            )
        | inl (s', e) ↦
            let went : lone o op r ≡ (ok s', commit o op s' r) = rw (e, lone) refl in
            let freed : Frees o j r (commit o op s' r) =
              erased-Frees o j op s' r h
                (settle-holds r.clock j (pos x.pre_tax) why (get_state o r) s' e) in
            inl (
              subst (λ q. Frees o j r q.1)
                (sym (
                  then-ok_of (release c o j (pos x.pre_tax) why) payments r (commit o op s' r)
                    (ap done (ran ∙ went))))
                (Frees-Keeps o j r (commit o op s' r) (payments (commit o op s' r)).1 freed
                  (payments-Keeps (commit o op s' r) freed.touches.alone)))
      ]
