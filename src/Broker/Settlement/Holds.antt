-- ===== src/Broker/Settlement/Holds.antt =====
-- What the operations of the broker do to the holds of one wallet, while no other client writes.
use agent_handshake_protocol.Prelude.{
  ℕ, String, ◌≡◌, refl, sym, ap, subst, ◌∙◌, ◌⊎◌, inl, inr, false, ◌==◌, eq_iff, eq_refl, none,
  arith, Bool-cases, Option-cases, if◌then◌else◌,
}
use agent_handshake_protocol.Prelude.Int.{ℤ, pos, ltb_ℤ, ◌-ℤ◌}
use agent_handshake_protocol.Prelude.Dict.{Dict, lookup, insert, erase, lookup-insert, lookup-erase}
use agent_handshake_protocol.Prelude.Exec.{Result, ok, err, Result-cases}
use agent_handshake_protocol.Economy.Wallet.{
  WalletState, WalletOp, WalletError, HistoryEntry, unknown_hold, apply_op, apply_refund, note,
}
use agent_handshake_protocol.Economy.WalletClient
use agent_handshake_protocol.Economy.WalletClient.{
  Redis, WalletFailure, from_state, Conflict, get_state, commit, to_json, from_json,
}
use agent_handshake_protocol.Economy.WalletClient.Alone.{
  Alone, lone, transact-Alone, get_state-commit,
}
use agent_handshake_protocol.Broker.Settlement.{done, hold, refund, credit_positive}

abbrev pub holds : String → Redis → Dict ℤ
holds o r = (get_state o r).holds

-- Only the hold of one id may be another one afterwards.
pub record Touches (o j : String) (r r' : Redis) : Type 0 where
  pub alone : Alone r'
  pub others : (i : String) → (j == i) ≡ false → lookup i (holds o r') ≡ lookup i (holds o r)

-- That hold is gone afterwards, too.
pub record Frees (o j : String) (r r' : Redis) : Type 0 where
  pub touches : Touches o j r r'
  pub freed : lookup j (holds o r') ≡ none

-- Every hold is as before.
pub record Keeps (o : String) (r r' : Redis) : Type 0 where
  pub alone : Alone r'
  pub same : holds o r' ≡ holds o r

commit-holds :
    (o o' : String) (op : WalletOp) (s : WalletState) (r : Redis)
    → holds o' (commit o op s r) ≡ (if o == o' then s.holds else holds o' r)
unfolding from_json to_json
commit-holds o o' op s r =
    ap (λ (w : WalletState). w.holds) (get_state-commit o o' op s r)
    ∙ elim (Bool-cases (o == o')) [ inl e ↦ rw e | inr e ↦ rw e ]

commit-Alone :
    (o : String) (op : WalletOp) (s : WalletState) (r : Redis) → Alone r → Alone (commit o op s r)
unfolding commit
commit-Alone o op s r h = h

commit-own :
    (o : String) (op : WalletOp) (s : WalletState) (r : Redis) → holds o (commit o op s r) ≡ s.holds
commit-own o op s r = commit-holds o o op s r ∙ rw eq_refl refl

-- A credit keeps the holds of every wallet.
topup-holds :
    (now : ℕ) (x : ℤ) (why : String) (s s' : WalletState)
    → apply_op now (WalletOp.topup x why) s ≡ ok s'
    → s'.holds ≡ s.holds
unfolding apply_op
topup-holds now x why s s' h = ground arith

pub settle-holds :
    (now : ℕ) (j : String) (x : ℤ) (why : String) (s s' : WalletState)
    → apply_op now (WalletOp.settle j x why) s ≡ ok s'
    → s'.holds ≡ erase j s.holds
unfolding apply_op
settle-holds now j x why s s' h = ground arith

hold-holds :
    (now : ℕ) (j : String) (x : ℤ) (why : String) (s s' : WalletState)
    → apply_op now (WalletOp.hold j x why) s ≡ ok s'
    → (s'.holds ≡ s.holds) ⊎ (s'.holds ≡ insert j x s.holds)
unfolding apply_op
hold-holds now j x why s s' h = elim (Option-cases (lookup j s.holds)) [
  | inl e ↦ inr (ground arith)
  | inr (v, e) ↦ inl (ground arith)
]

refund-holds :
    (now : ℕ) (j why : String) (s : WalletState)
    → ((s' : WalletState) × (apply_op now (WalletOp.refund j why) s ≡ ok s')
        × (s'.holds ≡ erase j s.holds))
      ⊎ ((e : WalletError) × (apply_op now (WalletOp.refund j why) s ≡ err e)
          × (lookup j s.holds ≡ none))
unfolding apply_op
refund-holds now j why s = elim (Option-cases (lookup j s.holds)) [
  | inl e ↦ inr (unknown_hold, rw (e, apply_op, apply_refund) refl, e)
  | inr (v, e) ↦ inl (
    record s {
      holds = erase j s.holds;
      held_total = s.held_total -ℤ v;
      history = note s (HistoryEntry.refund j v why now);
    },
    rw (e, apply_op, apply_refund) refl,
    refl,
  )
]

pub erased-Frees :
    (o j : String) (op : WalletOp) (s' : WalletState) (r : Redis)
    → Alone r
    → s'.holds ≡ erase j (holds o r)
    → Frees o j r (commit o op s' r)
erased-Frees o j op s' r h e =
    let after : holds o (commit o op s' r) ≡ erase j (holds o r) = commit-own o op s' r ∙ e in
    record {
      touches = record {
        alone = commit-Alone o op s' r h;
        others = λ i other. ap (lookup i) after ∙ lookup-erase j i (holds o r) ∙ rw other refl;
      };
      freed = ap (lookup j) after ∙ lookup-erase j j (holds o r) ∙ rw eq_refl refl;
    }

unchanged : (o j : String) (r : Redis) → Alone r → Touches o j r r
unchanged o j r h = record { alone = h; others = λ i other. refl }

pub refund-Frees :
    (c : Conflict) (o j why : String) (r : Redis) → Alone r → Frees o j r (refund c o j why r).1
unfolding refund WalletClient.refund
refund-Frees c o j why r h =
    let op = WalletOp.refund j why in
    let ran : refund c o j why r ≡ done (lone o op r) = ap done (transact-Alone c o op 7 r h) in
    subst (λ q. Frees o j r q.1) (sym ran)
      (elim (refund-holds r.clock j why (get_state o r)) [
        | inl (s', e, gone) ↦ rw (e, lone) (erased-Frees o j op s' r h gone)
        | inr (x, e, absent) ↦ rw (e, lone) (record { touches = unchanged o j r h; freed = absent })
      ])

pub hold-Touches :
    (c : Conflict) (o j : String) (x : ℤ) (why : String) (r : Redis)
    → Alone r
    → Touches o j r (hold c o x j why r).1
unfolding hold WalletClient.hold
hold-Touches c o j x why r h =
    let op = WalletOp.hold j x why in
    let ran : hold c o x j why r ≡ done (lone o op r) = ap done (transact-Alone c o op 7 r h) in
    subst (λ q. Touches o j r q.1) (sym ran)
      (elim (Result-cases (apply_op r.clock op (get_state o r))) [
        | inr (y, e) ↦ rw (e, lone) (unchanged o j r h)
        | inl (s', e) ↦
            rw (e, lone)
              (record {
                alone = commit-Alone o op s' r h;
                others = λ i other.
                    ap (lookup i) (commit-own o op s' r)
                    ∙ elim (hold-holds r.clock j x why (get_state o r) s' e) [
                      | inl same ↦ ap (lookup i) same
                      | inr more ↦
                          ap (lookup i) more ∙ lookup-insert j i x (holds o r) ∙ rw other refl
                    ];
              })
      ])

-- A hold that is refused leaves the store alone.
pub hold-err :
    (c : Conflict) (o j : String) (x : ℤ) (why : String) (r : Redis) (e : WalletFailure)
    → Alone r
    → (hold c o x j why r).0 ≡ err e
    → (hold c o x j why r).1 ≡ r
unfolding hold WalletClient.hold
hold-err c o j x why r e h failed =
    let op = WalletOp.hold j x why in
    let ran : hold c o x j why r ≡ done (lone o op r) = ap done (transact-Alone c o op 7 r h) in
    elim (Result-cases (apply_op r.clock op (get_state o r))) [
      | inr (y, f) ↦ ap (λ q. q.1) ran ∙ rw (f, lone) refl
      | inl (s', f) ↦
          let went : done (lone o op r) ≡ (ok tt, commit o op s' r) = rw (f, lone) refl in
          let both : Path (Result WalletFailure (Unit {0})) (ok tt) (err e) =
            sym (ap (λ q. q.0) (ran ∙ went)) ∙ failed in
          absurd (cc)
    ]

pub credit-Keeps :
    (c : Conflict) (o o' : String) (x : ℤ) (why : String) (r : Redis)
    → Alone r
    → Keeps o r (credit_positive c o' x why r).1
unfolding credit_positive WalletClient.topup
credit-Keeps c o o' x why r h = elim (Bool-cases (ltb_ℤ (pos 0) x)) [
  | inr none_due ↦ rw (none_due, credit_positive) (record { alone = h; same = refl })
  | inl due ↦
      let op = WalletOp.topup x why in
      rw (due, credit_positive, transact-Alone c o' op 7 r h)
        (elim (Result-cases (apply_op r.clock op (get_state o' r))) [
          | inr (y, e) ↦ rw (e, lone) (record { alone = h; same = refl })
          | inl (s', e) ↦
              rw (e, lone)
                (record {
                  alone = commit-Alone o' op s' r h;
                  same = commit-holds o' o op s' r ∙ elim (Bool-cases (o' == o)) [
                    | inl own ↦ rw own (
                        topup-holds r.clock x why (get_state o' r) s' e
                        ∙ ap (λ k. holds k r) ((eq_iff o' o).0 own))
                    | inr other ↦ rw other refl
                  ];
                })
        ])
]
