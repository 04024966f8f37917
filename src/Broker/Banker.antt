-- ===== src/Broker/Banker.antt =====
-- ahp/economy/agent_banker.py: the funding of an agent's wallet, and its draining when the agent is
-- taken down. Each step is a transaction of its own; a wallet is read before the first one.
pub mod Transfers
pub mod Funded
pub mod Drained
use Prim.Native.String.{◌++◌ as join}
use agent_handshake_protocol.Prelude.{
  ℕ, ◌*◌, String, Bool, ◌==◌, Option, none, some, [], ◌∷◌, if◌then◌else◌,
}
use agent_handshake_protocol.Prelude.Int.{ℤ, pos, ltb_ℤ, leb_ℤ}
use agent_handshake_protocol.Prelude.Dict.{Dict, lookup}
use agent_handshake_protocol.Prelude.Exec.{Exec, Result, ok, err, pure, raise, ◌>>=◌, ◌>>◌}
use agent_handshake_protocol.Prelude.Text.{is_empty}
use agent_handshake_protocol.Core.Address.{AgentAddress}
use agent_handshake_protocol.Core.Address.Text.{str}
use agent_handshake_protocol.Economy.Wallet.{slack, initial_fund, available, insufficient_funds}
use agent_handshake_protocol.Economy.WalletClient
use agent_handshake_protocol.Economy.WalletClient.{
  Redis, WalletFailure, from_state, Conflict, get_state,
}
use agent_handshake_protocol.Broker.Settlement.{commons_wallet, Step, done, release}
use agent_handshake_protocol.Broker.Settlement

-- credits, in quanta
abbrev pub credits : ℕ → ℤ
credits n = pos (n * 1_000_000_000 * slack)

-- STARTING_FUND_BY_LIFECYCLE
unfoldable pub starting_fund_by_lifecycle : Dict ℤ
unfolding slack
starting_fund_by_lifecycle =
    ("session", credits 5)
    ∷ ("longterm", credits 15)
    ∷ ("ephemeral", credits 1)
    ∷ ("stale-ok", credits 3)
    ∷ []

-- `STARTING_FUND_BY_LIFECYCLE.get(lifecycle, INITIAL_FUND)`
unfoldable pub starting_fund : String → ℤ
unfolding lookup starting_fund_by_lifecycle initial_fund
starting_fund lifecycle = elim (lookup lifecycle starting_fund_by_lifecycle) [
  | none ↦ initial_fund
  | some x ↦ x
]

-- an empty host id counts as none
unfoldable pub funding_source_for : (lifecycle : String) (host_server_id : Option String) → String
unfolding is_empty
funding_source_for lifecycle none = commons_wallet
funding_source_for lifecycle (some host) =
    if lifecycle == "session"
    then if is_empty host then commons_wallet else host
    else commons_wallet

unfoldable pub refund_destination_for :
    (lifecycle : String) (host_server_id : Option String) → Option String
refund_destination_for lifecycle host_server_id =
    if lifecycle == "session"
    then host_server_id
    else if lifecycle == "longterm"
    then none
    else if lifecycle == "ephemeral"
    then some commons_wallet
    else host_server_id

module _ (conflict : Conflict) where
  -- `await wallet.topup(amount)`
  unfoldable pub credit : (owner : String) (amount : ℤ) (reason : String) → Step
  credit owner amount reason r = done (WalletClient.topup conflict owner amount reason r)

  -- a hold of an amount that is settled in full at once
  unfoldable pub withdraw :
      (owner : String) (amount : ℤ) (hold_id hold_why settle_why : String) → Step
  unfolding Settlement.hold release
  withdraw owner amount hold_id hold_why settle_why = do
    Settlement.hold conflict owner amount hold_id hold_why
    release conflict owner hold_id amount settle_why

  -- the writes of `fund_agent`
  unfoldable pub pay_agent : (address : AgentAddress) (funder : String) (amount : ℤ) → Step
  unfolding withdraw credit
  pay_agent address funder amount = do
    withdraw funder amount (join "fund:" (str address)) (join "fund agent " (str address))
        (join "funded agent " (str address))
    credit (str address) amount (join "funded by " funder)

  -- `fund_agent`, of the amount that is due
  unfoldable pub fund :
      (address : AgentAddress) (host_server_id : Option String) (amount : ℤ)
      → Exec Redis WalletFailure ℤ
  unfolding funding_source_for pay_agent
  fund address host_server_id amount r =
      let funder = funding_source_for address.lifecycle host_server_id in
      if leb_ℤ amount (pos 0)
      then (ok (pos 0), r)
      else if ltb_ℤ (available (get_state funder r)) amount
      then (err (from_state insufficient_funds), r)
      else (do pay_agent address funder amount; pure amount) r

  -- `fund_agent`
  unfoldable pub fund_agent :
      (address : AgentAddress) (host_server_id : Option String) (amount : Option ℤ)
      → Exec Redis WalletFailure ℤ
  unfolding fund starting_fund
  fund_agent address host_server_id none =
      fund address host_server_id (starting_fund address.lifecycle)
  fund_agent address host_server_id (some amount) = fund address host_server_id amount

  -- the writes of `drain_agent`: the destination is paid first
  unfoldable pub return_residual :
      (address : AgentAddress) (destination : String) (residual : ℤ) → Step
  unfolding withdraw credit
  return_residual address destination residual = do
    credit destination residual (join "residual from agent " (str address))
    withdraw (str address) residual (join "drain:" (str address)) (join "drain to " destination)
        (join "drained to " destination)

  -- `drain_agent`, once there is a destination
  unfoldable pub drain :
      (address : AgentAddress) (destination : String) → Exec Redis WalletFailure ℤ
  unfolding return_residual
  drain address destination r =
      let residual = (get_state (str address) r).balance in
      if leb_ℤ residual (pos 0)
      then (ok (pos 0), r)
      else (do return_residual address destination residual; pure residual) r

  abbrev pub drain_to : AgentAddress → Option String → Exec Redis WalletFailure ℤ
  drain_to address none = pure (pos 0)
  drain_to address (some destination) = drain address destination

  -- `drain_agent`
  unfoldable pub drain_agent :
      (address : AgentAddress) (host_server_id : Option String) → Exec Redis WalletFailure ℤ
  unfolding drain refund_destination_for
  drain_agent address host_server_id =
      drain_to address (refund_destination_for address.lifecycle host_server_id)
