-- ===== src/Gui.antt =====
-- cmd/gui/main.go: what the windows compute before they call the wallet and the node, and after.
pub mod Inputs
pub mod Prepared
pub mod Selected
pub mod Sending
pub mod Gate
pub mod Tracked
pub mod Broadcasts
pub mod Pending
pub mod Settling
pub mod Reconciled
mod Tests
mod BroadcastTests
pub mod Refresh
pub mod Observing
pub mod Refreshed
pub mod Amounts
