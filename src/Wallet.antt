-- ===== src/Wallet.antt =====
-- wallet/wallet.go and wallet/history.go: the observations that move addresses on, and signing.
pub mod Types
pub mod Observe
pub mod Listing
pub mod Sighash
pub mod Validate
pub mod Signing
pub mod Validated
pub mod Prepared
pub mod Outcome
pub mod Failure
pub mod Money
pub mod Confirming
pub mod History
pub mod Listed
pub mod Files
pub mod Created
pub mod Messages
pub mod Verified
mod Tests
mod MessageTests
mod FileTests
