-- ===== src/Tests/Banker.antt =====
-- The funding and the draining of agents at concrete inputs.
use agent_handshake_protocol.Prelude.{String, ◌≡◌, refl, ◌==◌, some, [], ◌∷◌, arith}
use agent_handshake_protocol.Prelude.Int.{pos, ◌+ℤ◌, ◌-ℤ◌}
use agent_handshake_protocol.Prelude.Dict.{lookup}
use agent_handshake_protocol.Prelude.Exec.{err}
use agent_handshake_protocol.Core.Address.Text.{str}
use agent_handshake_protocol.Economy.Wallet.{insufficient_funds}
use agent_handshake_protocol.Economy.WalletClient.{
  Redis, answers_none, get_state, wallet_key, from_json, from_state,
}
use agent_handshake_protocol.Broker.Settlement.Ledger.{balance}
use agent_handshake_protocol.Broker.Settlement.Ledger.{share}
use agent_handshake_protocol.Broker.Banker.{
  fund_agent, drain_agent, funding_source_for, refund_destination_for,
}
use agent_handshake_protocol.Broker.Banker.Funded.{Transfers, funded, amount_due, fund_agent_ledger}
use agent_handshake_protocol.Broker.Banker.Drained.{drained, drain_agent_ledger, drain_agent_mints}
use agent_handshake_protocol.Tests.Core.{analyst}
use agent_handshake_protocol.Tests.Pricing.{caller}
use agent_handshake_protocol.Tests.Broker.{bank}

fund_agent_ledger_example :
    Transfers
      (amount_due analyst (some (pos 5)))
      (funded
        (funding_source_for analyst.lifecycle (some "alice"))
        (str analyst)
        (amount_due analyst (some (pos 5))))
      bank
      (fund_agent answers_none analyst (some "alice") (some (pos 5)) bank)
unfolding get_state lookup wallet_key from_json funding_source_for str ◌-ℤ◌
fund_agent_ledger_example =
    fund_agent_ledger answers_none analyst (some "alice") (some (pos 5)) bank refl (omega arith)
      refl (omega arith)

-- the agent has a wallet in which a call's price is held
abbrev pub busy : Redis
busy = record bank {
  wallets = ("ahp:wallet:tifin.analyst.finance.risk.sj.session.a1", caller) ∷ [];
}

-- and one in which nothing is
abbrev pub idle : Redis
idle = record bank {
  wallets =
      (
        "ahp:wallet:tifin.analyst.finance.risk.sj.session.a1",
        record caller { held_total = pos 0; holds = [] },
      )
      ∷ [];
}

drain_agent_ledger_example :
    Transfers
      (balance (str analyst) idle)
      (drained "alice" (str analyst) (balance (str analyst) idle))
      idle
      (drain_agent answers_none analyst (some "alice") idle)
unfolding get_state lookup wallet_key from_json refund_destination_for str ◌-ℤ◌
drain_agent_ledger_example =
    drain_agent_ledger answers_none analyst (some "alice") "alice" idle refl refl refl (omega arith)
      refl (omega arith)

drain_agent_mints_example :
    ((drain_agent answers_none analyst (some "alice") busy).0 ≡ err (from_state insufficient_funds))
    × ((o : String)
        → balance o (drain_agent answers_none analyst (some "alice") busy).1
          ≡ balance o busy +ℤ share ("alice" == o) (balance (str analyst) busy))
unfolding get_state lookup wallet_key from_json refund_destination_for str ◌-ℤ◌
drain_agent_mints_example =
    drain_agent_mints answers_none analyst (some "alice") "alice" busy refl refl refl (omega arith)
      refl (omega arith)
