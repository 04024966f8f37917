-- ===== src/Broker/Banker/Funded.antt =====
-- What a funding does, on every branch.
use Prim.Native.String.{◌++◌ as join}
use agent_handshake_protocol.Prelude.{
  String, ◌≡◌, refl, sym, subst, false, ◌==◌, Option, none, some,
}
use agent_handshake_protocol.Prelude.Int.{ℤ, pos, ◌+ℤ◌, ◌-ℤ◌, ◌≤ℤ◌, ◌<ℤ◌, ltb_ℤ, leb_ℤ, int_laws}
use agent_handshake_protocol.Prelude.Dict.{lookup}
use agent_handshake_protocol.Prelude.Exec.{Result, ok, err, pure, ◌>>◌}
use agent_handshake_protocol.Core.Address.{AgentAddress}
use agent_handshake_protocol.Core.Address.Text.{str}
use agent_handshake_protocol.Economy.Wallet.{available}
use agent_handshake_protocol.Economy.WalletClient.{Redis, WalletFailure, Conflict, get_state}
use agent_handshake_protocol.Economy.WalletClient.Alone.{Alone}
use agent_handshake_protocol.Broker.Settlement.{Step}
use agent_handshake_protocol.Broker.Settlement.Ledger.{balance, share, Moves, then-Moves}
use agent_handshake_protocol.Broker.Banker.{
  starting_fund, funding_source_for, credit, withdraw, pay_agent, fund, fund_agent,
}
use agent_handshake_protocol.Broker.Banker.Transfers.{credit-Moves, withdraw-Moves}

-- `a; return x`
pub then-pure :
    (step : Step) (x : ℤ) (r : Redis)
    → (step r).0 ≡ ok tt
    → (do step; pure x) r ≡ (ok x, (step r).1)
then-pure step x r e =
    subst
      (λ q.
        Path (Result WalletFailure ℤ × Redis)
          (elim q [ ok _ ↦ (ok x, (step r).1) | err y ↦ (err y, (step r).1) ]) (ok x, (step r).1))
      (sym e) refl

-- the answer of a transfer, and every balance after it
pub record Transfers (x : ℤ) (f : String → ℤ) (r : Redis) (q : Result WalletFailure ℤ × Redis)
    : Type 0 where
  pub returned : q.0 ≡ ok x
  pub alone : Alone q.1
  pub balances : (o : String) → balance o q.1 ≡ balance o r +ℤ f o

pub then-Transfers :
    (step : Step) (x : ℤ) (f : String → ℤ) (r : Redis)
    → Moves f r (step r)
    → Transfers x f r ((do step; pure x) r)
then-Transfers step x f r m =
    subst (Transfers x f r) (sym (then-pure step x r m.answered))
      (record { returned = refl; alone = m.alone; balances = m.balances })

-- what a funding adds to the balance of one owner
abbrev pub funded : (funder agent : String) → ℤ → String → ℤ
funded funder agent x o = share (funder == o) (pos 0 -ℤ x) +ℤ share (agent == o) x

fund-Transfers :
    (c : Conflict) (a : AgentAddress) (host : Option String) (x : ℤ) (r : Redis)
    → Alone r
    → pos 0 <ℤ x
    → lookup (join "fund:" (str a)) (get_state (funding_source_for a.lifecycle host) r).holds ≡ none
    → x ≤ℤ available (get_state (funding_source_for a.lifecycle host) r)
    → Transfers x (funded (funding_source_for a.lifecycle host) (str a) x) r (fund c a host x r)
unfolding fund pay_agent
fund-Transfers c a host x r h due free covered =
    let funder = funding_source_for a.lifecycle host in
    let id = join "fund:" (str a) in
    let why = join "fund agent " (str a) in
    let why' = join "funded agent " (str a) in
    let positive : leb_ℤ x (pos 0) ≡ false = grind int_laws in
    let enough : ltb_ℤ (available (get_state funder r)) x ≡ false = grind int_laws in
    rw (fund, positive, enough)
      (then-Transfers (pay_agent c a funder x) x (funded funder (str a) x) r (
        then-Moves (λ o. share (funder == o) (pos 0 -ℤ x)) (λ o. share (str a == o) x)
          (withdraw c funder x id why why') (credit c (str a) x (join "funded by " funder)) r
          (withdraw-Moves c funder id x why why' r h free (grind int_laws) covered)
          λ r' h'. credit-Moves c (str a) x (join "funded by " funder) r' h' due))

-- the amount that a funding is about
abbrev pub amount_due : AgentAddress → Option ℤ → ℤ
amount_due a none = starting_fund a.lifecycle
amount_due a (some x) = x

-- While no other client writes, and if the funder holds nothing under the id of this funding, a
-- positive amount that the funder has available is moved from the funder (the host server of a
-- session, else the commons) to the agent, and no other balance moves.
pub fund_agent_ledger :
    (c : Conflict) (a : AgentAddress) (host : Option String) (amount : Option ℤ) (r : Redis)
    → Alone r
    → pos 0 <ℤ amount_due a amount
    → lookup (join "fund:" (str a)) (get_state (funding_source_for a.lifecycle host) r).holds ≡ none
    → amount_due a amount ≤ℤ available (get_state (funding_source_for a.lifecycle host) r)
    → Transfers
        (amount_due a amount)
        (funded (funding_source_for a.lifecycle host) (str a) (amount_due a amount))
        r
        (fund_agent c a host amount r)
unfolding fund_agent
fund_agent_ledger c a host none r h due free covered =
    fund-Transfers c a host (starting_fund a.lifecycle) r h due free covered
fund_agent_ledger c a host (some x) r h due free covered =
    fund-Transfers c a host x r h due free covered
