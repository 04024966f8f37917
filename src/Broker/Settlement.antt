-- ===== src/Broker/Settlement.antt =====
-- ahp/broker/broker.py: the wallet operations of `Broker`. A settlement is five transactions, one
-- after the other; `conflict` is what the client library does when another client interferes.
pub mod Ledger
pub mod Total
pub mod Refused
pub mod Holds
pub mod Ends
use Prim.Native.String.{◌++◌ as join}
use agent_handshake_protocol.Prelude.{
  String, Bool, true, false, Option, none, some, ◌==◌, if◌then◌else◌,
}
use agent_handshake_protocol.Prelude.Int.{ℤ, pos, ltb_ℤ}
use agent_handshake_protocol.Prelude.Exec.{Exec, Result, ok, err, pure, ◌>>=◌, ◌>>◌}
use agent_handshake_protocol.Economy.Pricing.{Settlement}
use agent_handshake_protocol.Economy.WalletClient
use agent_handshake_protocol.Economy.WalletClient.{Redis, WalletFailure, Conflict}

-- BROKER_WALLET and COMMONS_WALLET
abbrev pub broker_wallet : String
broker_wallet = "__broker__"

abbrev pub commons_wallet : String
commons_wallet = "__commons__"

-- an operation of the broker, on the keys of the wallets
abbrev pub Step : Type 0
Step = Exec Redis WalletFailure (Unit {0})

-- `await` of a method whose answer is not used
abbrev pub done :
    {A : Type 0} → Result WalletFailure A × Redis → Result WalletFailure (Unit {0}) × Redis
done (ok _, r) = (ok tt, r)
done (err e, r) = (err e, r)

-- `compute_provider_id or server_owner`: an empty id counts as none
unfoldable pub compute_target :
    (server_owner : String) (compute_provider_id : Option String) → String
compute_target server_owner none = server_owner
compute_target server_owner (some provider) = if provider == "" then server_owner else provider

module _ (conflict : Conflict) where
  unfoldable pub hold : (caller : String) (amount : ℤ) (hold_id reason : String) → Step
  hold caller amount hold_id reason r =
      done (WalletClient.hold conflict caller hold_id amount reason r)

  unfoldable pub refund : (caller hold_id reason : String) → Step
  refund caller hold_id reason r = done (WalletClient.refund conflict caller hold_id reason r)

  -- `if amount > 0: await wallet.topup(amount)`
  unfoldable pub credit_positive : (owner : String) (amount : ℤ) (reason : String) → Step
  credit_positive owner amount reason r =
      if ltb_ℤ (pos 0) amount
      then done (WalletClient.topup conflict owner amount reason r)
      else (ok tt, r)

  unfoldable pub release : (caller hold_id : String) (debit : ℤ) (reason : String) → Step
  release caller hold_id debit reason r =
      done (WalletClient.settle_against_hold conflict caller hold_id debit reason r)

  unfoldable pub settle :
      (caller hold_id : String) (settlement : Settlement) (server_owner : String)
      (compute_provider_id : Option String)
      → Step
  unfolding release credit_positive compute_target
  settle caller hold_id settlement server_owner compute_provider_id = do
    release caller hold_id (pos settlement.pre_tax) (join "settle hold " hold_id)
    credit_positive server_owner settlement.to_server (join "server share of " hold_id)
    credit_positive (compute_target server_owner compute_provider_id) (pos settlement.to_compute)
        (join "compute share of " hold_id)
    credit_positive broker_wallet (pos settlement.to_broker) (join "broker tax " hold_id)
    credit_positive commons_wallet (pos settlement.to_commons) (join "commons tax " hold_id)
