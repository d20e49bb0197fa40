-- ===== src/Scan.antt =====
-- internal/rpcclient/balance.go and deposits.go: what the wallet reads out of a scan of the node's
-- unspent outputs.
pub mod Types
pub mod Index
pub mod Owners
pub mod Balances
pub mod Totals
pub mod Depths
pub mod Groups
pub mod Grouped
pub mod Deposited
mod Tests
