-- ===== src/Broker/Banker/Transfers.antt =====
-- What the banker's steps do to the balances, while no other client writes.
use agent_handshake_protocol.Prelude.{
  ℕ, String, ◌≡◌, refl, ap, sym, subst, ◌∙◌, Bool, true, false, ◌==◌, none, some, eq_refl, fun_ext,
}
use agent_handshake_protocol.Prelude.Int.{ℤ, pos, ◌+ℤ◌, ◌-ℤ◌, ◌≤ℤ◌, ◌<ℤ◌, ltb_ℤ, int_laws}
use agent_handshake_protocol.Prelude.Dict.{Dict, lookup, insert, lookup-insert}
use agent_handshake_protocol.Prelude.Exec.{Result, ok, err}
use agent_handshake_protocol.Economy.Wallet.{
  WalletState, WalletOp, apply_op, apply_hold, note, HistoryEntry, available, WalletError,
  insufficient_funds,
}
use agent_handshake_protocol.Economy.WalletClient
use agent_handshake_protocol.Economy.WalletClient.{
  Redis, WalletFailure, from_state, Conflict, get_state, commit, to_json, from_json,
}
use agent_handshake_protocol.Economy.WalletClient.Alone.{
  Alone, lone, transact-Alone, get_state-commit,
}
use agent_handshake_protocol.Broker.Settlement.{release, done, Step}
use agent_handshake_protocol.Broker.Settlement
use agent_handshake_protocol.Broker.Settlement.Ledger.{
  balance, share, Moves, then_at-Moves, commit-Moves, credit-succeeds, lone_ok, topup-Alone,
  release-Moves,
}
use agent_handshake_protocol.Broker.Banker.{credit, withdraw}

pub credit-Moves :
    (c : Conflict) (o : String) (x : ℤ) (why : String) (r : Redis)
    → Alone r
    → pos 0 <ℤ x
    → Moves (λ o'. share (o == o') x) r (credit c o x why r)
unfolding credit
credit-Moves c o x why r h due =
    let (s', e, b) = credit-succeeds r.clock x why (get_state o r) (grind int_laws) in
    let paid : Moves (λ o'. share (o == o') x) r (ok tt, commit o (WalletOp.topup x why) s' r) =
      commit-Moves o (WalletOp.topup x why) s' x r h b in
    subst (λ q. Moves (λ o'. share (o == o') x) r (done q))
      (sym (topup-Alone c o x why r h ∙ lone_ok o (WalletOp.topup x why) s' r e)) paid

pub lone_err :
    (o : String) (op : WalletOp) (e : WalletError) (r : Redis)
    → apply_op r.clock op (get_state o r) ≡ err e
    → lone o op r ≡ (err (from_state e), r)
lone_err o op e r h = rw (h, lone)

-- a credit leaves the other wallets alone
pub credit-keeps :
    (c : Conflict) (o o' : String) (x : ℤ) (why : String) (r : Redis)
    → Alone r
    → pos 0 <ℤ x
    → (o == o') ≡ false
    → get_state o' (credit c o x why r).1 ≡ get_state o' r
unfolding credit
credit-keeps c o o' x why r h due other =
    let (s', e, b) = credit-succeeds r.clock x why (get_state o r) (grind int_laws) in
    let op = WalletOp.topup x why in
    ap (λ q. get_state o' (done q).1) (topup-Alone c o x why r h ∙ lone_ok o op s' r e)
    ∙ get_state-commit o o' op s' r
    ∙ rw other refl

pub hold-Alone :
    (c : Conflict) (o i : String) (x : ℤ) (why : String) (r : Redis)
    → Alone r
    → WalletClient.hold c o i x why r ≡ lone o (WalletOp.hold i x why) r
unfolding WalletClient.hold
hold-Alone c o i x why r h = transact-Alone c o (WalletOp.hold i x why) 7 r h

-- the state of a wallet that a new hold is placed in
abbrev pub held_state : ℕ → String → ℤ → String → WalletState → WalletState
held_state now i x why s = record s {
  holds = insert i x s.holds;
  held_total = s.held_total +ℤ x;
  history = note s (HistoryEntry.hold i x why now);
}

hold-succeeds :
    (now : ℕ) (i : String) (x : ℤ) (why : String) (s : WalletState)
    → lookup i s.holds ≡ none
    → pos 0 ≤ℤ x
    → x ≤ℤ available s
    → apply_op now (WalletOp.hold i x why) s ≡ ok (held_state now i x why s)
unfolding apply_op apply_hold
hold-succeeds now i x why s free positive covered =
    let low : ltb_ℤ x (pos 0) ≡ false = grind int_laws in
    let high : ltb_ℤ (available s) x ≡ false = grind int_laws in
    rw (apply_op, apply_hold, free, low, high) refl

-- A new hold of more than is available is refused, and changes nothing.
pub hold-refused :
    (c : Conflict) (o i : String) (x : ℤ) (why : String) (r : Redis)
    → Alone r
    → lookup i (get_state o r).holds ≡ none
    → pos 0 ≤ℤ x
    → available (get_state o r) <ℤ x
    → Settlement.hold c o x i why r ≡ (err (from_state insufficient_funds), r)
unfolding Settlement.hold apply_op apply_hold
hold-refused c o i x why r h free positive short =
    let op = WalletOp.hold i x why in
    let low : ltb_ℤ x (pos 0) ≡ false = grind int_laws in
    let high : ltb_ℤ (available (get_state o r)) x ≡ true = grind int_laws in
    let refusal : apply_op r.clock op (get_state o r) ≡ err insufficient_funds =
      rw (apply_op, apply_hold, free, low, high) refl in
    ap done (hold-Alone c o i x why r h ∙ lone_err o op insufficient_funds r refusal)

add_zero : (a : ℤ) → a ≡ a +ℤ pos 0
add_zero a = grind int_laws

zero_add : (a : ℤ) → pos 0 +ℤ a ≡ a
zero_add a = grind int_laws

held_found :
    (o i : String) (x : ℤ) (s : WalletState) (d : Dict ℤ)
    → s.holds ≡ insert i x d
    → lookup i (from_json o (to_json s)).holds ≡ some x
unfolding from_json to_json
held_found o i x s d e = rw (e, lookup-insert, eq_refl) refl

-- a granted hold moves nothing, and is found under its id
pub hold-Moves :
    (c : Conflict) (o i : String) (x : ℤ) (why : String) (r : Redis)
    → Alone r
    → lookup i (get_state o r).holds ≡ none
    → pos 0 ≤ℤ x
    → x ≤ℤ available (get_state o r)
    → Moves (λ o'. share (o == o') (pos 0)) r (Settlement.hold c o x i why r)
      × (lookup i (get_state o (Settlement.hold c o x i why r).1).holds ≡ some x)
unfolding Settlement.hold
hold-Moves c o i x why r h free positive covered =
    let op = WalletOp.hold i x why in
    let s' = held_state r.clock i x why (get_state o r) in
    let went : Settlement.hold c o x i why r ≡ (ok tt, commit o op s' r) = ap done (
      hold-Alone c o i x why r h
      ∙ lone_ok o op s' r (hold-succeeds r.clock i x why (get_state o r) free positive covered)) in
    let kept : s'.balance ≡ balance o r +ℤ pos 0 = add_zero (balance o r) in
    let found : lookup i (get_state o (commit o op s' r)).holds ≡ some x =
      ap (λ w. lookup i w.holds) (get_state-commit o o op s' r)
      ∙ rw eq_refl (held_found o i x s' (get_state o r).holds refl) in
    (
      subst (λ q. Moves (λ o'. share (o == o') (pos 0)) r q) (sym went)
          (commit-Moves o op s' (pos 0) r h kept),
      ap (λ q. lookup i (get_state o q.1).holds) went ∙ found,
    )

Moves-ext :
    (f g : String → ℤ) (r : Redis) (q : Result WalletFailure (Unit {0}) × Redis)
    → ((o : String) → f o ≡ g o)
    → Moves f r q
    → Moves g r q
Moves-ext f g r q h = subst (λ k. Moves k r q) (fun_ext h)

share_withdrawn : (b : Bool) (x : ℤ) → share b (pos 0) +ℤ share b x ≡ share b x
share_withdrawn true x = zero_add x
share_withdrawn false x = zero_add (pos 0)

-- a hold that is settled in full
pub withdraw-Moves :
    (c : Conflict) (o i : String) (x : ℤ) (why why' : String) (r : Redis)
    → Alone r
    → lookup i (get_state o r).holds ≡ none
    → pos 0 ≤ℤ x
    → x ≤ℤ available (get_state o r)
    → Moves (λ o'. share (o == o') (pos 0 -ℤ x)) r (withdraw c o x i why why' r)
unfolding withdraw
withdraw-Moves c o i x why why' r h free positive covered =
    let (held, found) = hold-Moves c o i x why r h free positive covered in
    Moves-ext _ _ r (withdraw c o x i why why' r) (λ o'. share_withdrawn (o == o') (pos 0 -ℤ x))
      (then_at-Moves (λ o'. share (o == o') (pos 0)) (λ o'. share (o == o') (pos 0 -ℤ x))
        (Settlement.hold c o x i why) (release c o i x why') r held
        (release-Moves c o i x x why' (Settlement.hold c o x i why r).1 held.alone found positive
          (grind int_laws)))
