-- ===== src/TxBuilder.antt =====
-- internal/txbuilder/txbuilder.go: fees, coin selection, amounts and the BIP144 serialization.
pub mod Types
pub mod Compact
pub mod Serialize
pub mod TxId
pub mod Reading
pub mod RoundTrip
pub mod Size
pub mod Weight
pub mod Fees
pub mod Rate
pub mod Plan
pub mod Withdraw
pub mod Coins
pub mod Ordering
pub mod Selection
pub mod Choice
pub mod Chosen
mod Tests
