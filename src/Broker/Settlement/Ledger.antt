-- ===== src/Broker/Settlement/Ledger.antt =====
-- What a settlement does to every wallet, while no other client writes.
use agent_handshake_protocol.Prelude.{
  ℕ, String, ◌≡◌, refl, ap, sym, subst, ◌∙◌, eq_iff, inl, inr, Bool, true, false, ◌==◌, some, arith,
  Bool-cases, if◌then◌else◌,
}
use agent_handshake_protocol.Prelude.Int.{ℤ, pos, ◌+ℤ◌, ◌-ℤ◌, ◌≤ℤ◌, max_ℤ, ltb_ℤ, int_laws}
use agent_handshake_protocol.Prelude.Dict.{lookup, erase}
use agent_handshake_protocol.Prelude.Exec.{Result, ok, err, ◌>>◌}
use agent_handshake_protocol.Economy.Wallet.{
  WalletState, WalletOp, apply_op, apply_release, slack, note, HistoryEntry,
}
use agent_handshake_protocol.Economy.WalletClient
use agent_handshake_protocol.Economy.WalletClient.{
  Redis, WalletFailure, Conflict, from_state, get_state, commit, transact, to_json, from_json,
}
use agent_handshake_protocol.Economy.WalletClient.Alone.{
  Alone, lone, transact-Alone, get_state-commit,
}
use agent_handshake_protocol.Broker.Settlement.{credit_positive, release, done, Step}

abbrev pub balance : String → Redis → ℤ
balance o r = (get_state o r).balance

-- what one of the owners has of an amount
abbrev pub share : Bool → ℤ → ℤ
share true x = x
share false x = pos 0

add_zero : (a : ℤ) → a ≡ a +ℤ pos 0
add_zero a = grind int_laws

add_assoc : (a b c : ℤ) → a +ℤ b +ℤ c ≡ a +ℤ (b +ℤ c)
add_assoc a b c = grind int_laws

balance-commit :
    (o o' : String) (op : WalletOp) (s : WalletState) (r : Redis)
    → balance o' (commit o op s r) ≡ (if o == o' then s.balance else balance o' r)
unfolding from_json to_json
balance-commit o o' op s r =
    ap (λ (w : WalletState). w.balance) (get_state-commit o o' op s r)
    ∙ elim (Bool-cases (o == o')) [ inl e ↦ rw e | inr e ↦ rw e ]

commit-Alone :
    (o : String) (op : WalletOp) (s : WalletState) (r : Redis) → Alone r → Alone (commit o op s r)
unfolding commit
commit-Alone o op s r h = h

-- every balance after a step: the step answers, and leaves no other client at work
pub record Moves (f : String → ℤ) (r : Redis) (q : Result WalletFailure (Unit {0}) × Redis)
    : Type 0 where
  pub answered : q.0 ≡ ok tt
  pub alone : Alone q.1
  pub balances : (o : String) → balance o q.1 ≡ balance o r +ℤ f o

-- a commit that sets one balance
pub commit-Moves :
    (o : String) (op : WalletOp) (s : WalletState) (x : ℤ) (r : Redis)
    → Alone r
    → s.balance ≡ balance o r +ℤ x
    → Moves (λ o'. share (o == o') x) r (ok tt, commit o op s r)
commit-Moves o op s x r h e = record {
  answered = refl;
  alone = commit-Alone o op s r h;
  balances = λ o'. balance-commit o o' op s r ∙ elim (Bool-cases (o == o')) [
    | inl same ↦ rw (same, e) (ap (λ t. balance t r +ℤ x) ((eq_iff o o').0 same))
    | inr other ↦ rw other (omega int_laws)
  ];
}

pub then-ok :
    (step rest : Step) (r : Redis) → (step r).0 ≡ ok tt → (do step; rest) r ≡ rest (step r).1
then-ok step rest r e =
    subst (λ x. elim x [ ok _ ↦ rest (step r).1 | err y ↦ (err y, (step r).1) ] ≡ rest (step r).1)
      (sym e) refl

-- one step after another, at the store that the first one leaves
pub then_at-Moves :
    (f g : String → ℤ) (step rest : Step) (r : Redis)
    → Moves f r (step r)
    → Moves g (step r).1 (rest (step r).1)
    → Moves (λ o. f o +ℤ g o) r ((do step; rest) r)
then_at-Moves f g step rest r first next =
    subst (Moves (λ o. f o +ℤ g o) r) (sym (then-ok step rest r first.answered)) (record {
      answered = next.answered;
      alone = next.alone;
      balances = λ o.
          next.balances o
          ∙ ap (λ t. t +ℤ g o) (first.balances o)
          ∙ add_assoc (balance o r) (f o) (g o);
    })

-- one step after another
pub then-Moves :
    (f g : String → ℤ) (step rest : Step) (r : Redis)
    → Moves f r (step r)
    → ((r' : Redis) → Alone r' → Moves g r' (rest r'))
    → Moves (λ o. f o +ℤ g o) r ((do step; rest) r)
then-Moves f g step rest r first second =
    then_at-Moves f g step rest r first (second (step r).1 first.alone)

pub topup-Alone :
    (c : Conflict) (o : String) (x : ℤ) (why : String) (r : Redis)
    → Alone r
    → WalletClient.topup c o x why r ≡ lone o (WalletOp.topup x why) r
unfolding WalletClient.topup
topup-Alone c o x why r h = transact-Alone c o (WalletOp.topup x why) 7 r h

pub settle-Alone :
    (c : Conflict) (o i : String) (x : ℤ) (why : String) (r : Redis)
    → Alone r
    → WalletClient.settle_against_hold c o i x why r ≡ lone o (WalletOp.settle i x why) r
unfolding WalletClient.settle_against_hold
settle-Alone c o i x why r h = transact-Alone c o (WalletOp.settle i x why) 7 r h

-- a credit of a positive amount goes through
pub credit-succeeds :
    (now : ℕ) (x : ℤ) (why : String) (s : WalletState)
    → ltb_ℤ (pos 0) x ≡ true
    → (s' : WalletState) × (apply_op now (WalletOp.topup x why) s ≡ ok s')
      × (s'.balance ≡ s.balance +ℤ x)
unfolding apply_op
credit-succeeds now x why s h = (
  record s { balance = s.balance +ℤ x; history = note s (HistoryEntry.credit x why now) },
  ground arith,
  refl,
)

release-succeeds :
    (now : ℕ) (i : String) (held x : ℤ) (why : String) (s : WalletState)
    → lookup i s.holds ≡ some held
    → pos 0 ≤ℤ x
    → x ≤ℤ held +ℤ pos slack
    → (s' : WalletState) × (apply_op now (WalletOp.settle i x why) s ≡ ok s')
      × (s'.balance ≡ s.balance -ℤ x)
unfolding apply_op apply_release
release-succeeds now i held x why s found pays covers =
    let low : ltb_ℤ x (pos 0) ≡ false = grind int_laws in
    let high : ltb_ℤ (held +ℤ pos slack) x ≡ false = grind int_laws in
    (
      record s {
        holds = erase i s.holds;
        held_total = s.held_total -ℤ held;
        balance = s.balance -ℤ x;
        history = note s (HistoryEntry.release i held x why now);
      },
      rw (apply_op, apply_release, found, low, high) refl,
      refl,
    )

pub lone_ok :
    (o : String) (op : WalletOp) (s : WalletState) (r : Redis)
    → apply_op r.clock op (get_state o r) ≡ ok s
    → lone o op r ≡ (ok s, commit o op s r)
lone_ok o op s r e = rw (e, lone)

-- nothing is due
still-Moves :
    (o : String) (x : ℤ) (r : Redis)
    → Alone r
    → ltb_ℤ (pos 0) x ≡ false
    → Moves (λ o'. share (o == o') (max_ℤ (pos 0) x)) r (ok tt, r)
still-Moves o x r h e = record {
  answered = refl;
  alone = h;
  balances = λ o'. elim (Bool-cases (o == o')) [
    | inl same ↦ rw same (rw (max_ℤ, e) (add_zero (balance o' r)))
    | inr other ↦ rw other (add_zero (balance o' r))
  ];
}

pub credit-Moves :
    (c : Conflict) (o : String) (x : ℤ) (why : String) (r : Redis)
    → Alone r
    → Moves (λ o'. share (o == o') (max_ℤ (pos 0) x)) r (credit_positive c o x why r)
unfolding credit_positive
credit-Moves c o x why r h = elim (Bool-cases (ltb_ℤ (pos 0) x)) [
  | inr none_due ↦ rw none_due (still-Moves o x r h none_due)
  | inl due ↦
      let (s', e, b) = credit-succeeds r.clock x why (get_state o r) due in
      let paid : Moves (λ o'. share (o == o') (max_ℤ (pos 0) x)) r
          (ok tt, commit o (WalletOp.topup x why) s' r) =
        commit-Moves o (WalletOp.topup x why) s' (max_ℤ (pos 0) x) r h (grind int_laws) in
      rw due (
        subst (λ q. Moves (λ o'. share (o == o') (max_ℤ (pos 0) x)) r (done q))
          (sym (topup-Alone c o x why r h ∙ lone_ok o (WalletOp.topup x why) s' r e)) paid)
]

max-pos : (n : ℕ) → max_ℤ (pos 0) (pos n) ≡ pos n
max-pos n = grind int_laws

pub credit_pos-Moves :
    (c : Conflict) (o : String) (n : ℕ) (why : String) (r : Redis)
    → Alone r
    → Moves (λ o'. share (o == o') (pos n)) r (credit_positive c o (pos n) why r)
credit_pos-Moves c o n why r h =
    subst (λ x. Moves (λ o'. share (o == o') x) r (credit_positive c o (pos n) why r)) (max-pos n)
      (credit-Moves c o (pos n) why r h)

-- a hold that covers the debit is released
pub release-Moves :
    (c : Conflict) (o i : String) (held x : ℤ) (why : String) (r : Redis)
    → Alone r
    → lookup i (get_state o r).holds ≡ some held
    → pos 0 ≤ℤ x
    → x ≤ℤ held +ℤ pos slack
    → Moves (λ o'. share (o == o') (pos 0 -ℤ x)) r (release c o i x why r)
unfolding release
release-Moves c o i held x why r h found pays covers =
    let (s', e, b) = release-succeeds r.clock i held x why (get_state o r) found pays covers in
    let paid : Moves (λ o'. share (o == o') (pos 0 -ℤ x)) r
        (ok tt, commit o (WalletOp.settle i x why) s' r) =
      commit-Moves o (WalletOp.settle i x why) s' (pos 0 -ℤ x) r h (grind int_laws) in
    subst (λ q. Moves (λ o'. share (o == o') (pos 0 -ℤ x)) r (done q))
      (sym (settle-Alone c o i x why r h ∙ lone_ok o (WalletOp.settle i x why) s' r e)) paid
