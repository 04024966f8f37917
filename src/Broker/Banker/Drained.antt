-- ===== src/Broker/Banker/Drained.antt =====
-- What draining an agent's wallet does, with and without a pending hold in it.
use Prim.Native.String.{◌++◌ as join}
use agent_handshake_protocol.Prelude.{
  String, ◌≡◌, refl, ap, sym, subst, ◌∙◌, false, ◌==◌, Option, none, some, arith,
}
use agent_handshake_protocol.Prelude.Int.{ℤ, pos, ◌+ℤ◌, ◌-ℤ◌, ◌≤ℤ◌, ◌<ℤ◌, leb_ℤ, int_laws}
use agent_handshake_protocol.Prelude.Dict.{lookup}
use agent_handshake_protocol.Prelude.Exec.{ok, err, pure, ◌>>◌}
use agent_handshake_protocol.Core.Address.{AgentAddress}
use agent_handshake_protocol.Core.Address.Text.{str}
use agent_handshake_protocol.Economy.Wallet.{available, insufficient_funds}
use agent_handshake_protocol.Economy.WalletClient.{
  Redis, WalletFailure, from_state, Conflict, get_state,
}
use agent_handshake_protocol.Economy.WalletClient.Alone.{Alone}
use agent_handshake_protocol.Broker.Settlement.{Step, done, release}
use agent_handshake_protocol.Broker.Settlement
use agent_handshake_protocol.Broker.Settlement.Ledger.{
  balance, share, Moves, then_at-Moves, then-ok,
}
use agent_handshake_protocol.Broker.Settlement.Refused.{then-err}
use agent_handshake_protocol.Broker.Banker.{
  refund_destination_for, credit, withdraw, return_residual, drain, drain_to, drain_agent,
}
use agent_handshake_protocol.Broker.Banker.Transfers.{
  credit-Moves, credit-keeps, withdraw-Moves, hold-refused,
}
use agent_handshake_protocol.Broker.Banker.Funded.{Transfers, then-Transfers}

-- `a; return x`, where the step raises
then-fails :
    (step : Step) (x : ℤ) (r : Redis) {e : WalletFailure} {r' : Redis}
    → step r ≡ (err e, r')
    → (do step; pure x) r ≡ (err e, r')
then-fails step x r h = ap (λ q. elim q.0 [ ok _ ↦ (ok x, q.1) | err y ↦ (err y, q.1) ]) h

-- what a draining adds to the balance of one owner
abbrev pub drained : (destination agent : String) → ℤ → String → ℤ
drained destination agent x o = share (destination == o) x +ℤ share (agent == o) (pos 0 -ℤ x)

module _ (c : Conflict) (a : AgentAddress) (host : Option String) (d : String) (r : Redis)
    (alone : Alone r) (goes : refund_destination_for a.lifecycle host ≡ some d)
    (elsewhere : (d == str a) ≡ false) (rich : pos 0 <ℤ balance (str a) r)
    (free : lookup (join "drain:" (str a)) (get_state (str a) r).holds ≡ none) where
  residual : ℤ
  residual = balance (str a) r

  paid : Step
  paid = credit c d residual (join "residual from agent " (str a))

  zeroed : Step
  unfolding residual
  zeroed =
      withdraw c (str a) residual (join "drain:" (str a)) (join "drain to " d)
        (join "drained to " d)

  paid-Moves : Moves (λ o. share (d == o) residual) r (paid r)
  unfolding paid residual
  paid-Moves = credit-Moves c d residual (join "residual from agent " (str a)) r alone rich

  -- the payment leaves the agent's wallet alone
  same : get_state (str a) (paid r).1 ≡ get_state (str a) r
  unfolding paid residual
  same =
      credit-keeps c d (str a) residual (join "residual from agent " (str a)) r alone rich elsewhere

  opens : drain_agent c a host r ≡ (do (do paid; zeroed); pure residual) r
  unfolding drain_agent drain return_residual paid zeroed residual
  opens =
      let positive : leb_ℤ (balance (str a) r) (pos 0) ≡ false = grind int_laws in
      ap (λ q. drain_to c a q r) goes ∙ rw (drain, positive) refl

  -- While no other client writes, an agent with a positive balance, all of it available, and with a
  -- destination other than itself is drained, if it holds nothing under the id of the draining: its
  -- whole balance goes to its destination, and no other balance moves.
  pub drain_agent_ledger :
      balance (str a) r ≤ℤ available (get_state (str a) r)
      → Transfers
          (balance (str a) r)
          (drained d (str a) (balance (str a) r))
          r
          (drain_agent c a host r)
  unfolding residual zeroed
  drain_agent_ledger covered =
      subst (Transfers residual (drained d (str a) residual) r) (sym opens) (
        then-Transfers (do paid; zeroed) residual (drained d (str a) residual) r
          (then_at-Moves (λ o. share (d == o) residual)
            (λ o. share (str a == o) (pos 0 -ℤ residual)) paid zeroed r paid-Moves
            (withdraw-Moves c (str a) (join "drain:" (str a)) residual (join "drain to " d)
              (join "drained to " d) (paid r).1 paid-Moves.alone
              (ap (λ w. lookup (join "drain:" (str a)) w.holds) same ∙ free) (grind int_laws)
              (subst (λ w. residual ≤ℤ available w) (sym same) covered))))

  -- what is held in the wallet makes the hold fail
  refuses :
      available (get_state (str a) r) <ℤ balance (str a) r
      → zeroed (paid r).1 ≡ (err (from_state insufficient_funds), (paid r).1)
  unfolding zeroed withdraw residual
  refuses short =
      let id = join "drain:" (str a) in
      then-err (Settlement.hold c (str a) residual id (join "drain to " d))
        (release c (str a) id residual (join "drained to " d)) (paid r).1
        (hold-refused c (str a) id residual (join "drain to " d) (paid r).1 paid-Moves.alone
          (ap (λ w. lookup id w.holds) same ∙ free) (omega arith)
          (subst (λ w. available w <ℤ residual) (sym same) short))

  -- While no other client writes, an agent with a positive balance, not all of it available, with a
  -- destination other than itself and nothing held under the id of the draining, is not drained: the
  -- call raises InsufficientFunds when the destination has its balance already, so that every
  -- balance stays but the destination's, which grows by the agent's balance.
  pub drain_agent_mints :
      available (get_state (str a) r) <ℤ balance (str a) r
      → ((drain_agent c a host r).0 ≡ err (from_state insufficient_funds))
        × ((o : String)
            → balance o (drain_agent c a host r).1
              ≡ balance o r +ℤ share (d == o) (balance (str a) r))
  unfolding residual
  drain_agent_mints short =
      let ends : drain_agent c a host r ≡ (err (from_state insufficient_funds), (paid r).1) =
        opens
        ∙ then-fails (do paid; zeroed) residual r
            (then-ok paid zeroed r paid-Moves.answered ∙ refuses short) in
      (ap (λ q. q.0) ends, λ o. ap (λ q. balance o q.1) ends ∙ paid-Moves.balances o)
