-- ===== src/Economy.antt =====
-- ahp/economy: credit wallets, settlement prices, reputation, model tiers, compute leaves.
pub mod Tiers
pub mod ComputeProvider
pub mod Pricing
pub mod Wallet
pub mod WalletClient
pub mod Shortfall
pub mod Reputation
