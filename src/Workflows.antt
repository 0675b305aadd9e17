-- ===== src/Workflows.antt =====
-- The package workflows.
pub mod AddressesAccumulator
pub mod WalletTracker
pub mod MoveBalance
