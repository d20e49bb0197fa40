-- ===== src/Keystore.antt =====
-- keystore/keystore.go, keystore/history.go and keystore/pending.go: the single-use address index
-- with its state machine, the transaction history and the signed transactions that wait for
-- broadcast, over a bbolt database.
pub mod Types
pub mod Bolt
pub mod Transaction
pub mod Store
pub mod Pending
pub mod Lifecycle
pub mod Outpoints
pub mod Recovery
pub mod History
pub mod Generate
pub mod Queries
pub mod Opening
pub mod Schema
pub mod Sorting
pub mod Rows
pub mod Inversion
pub mod Steps
pub mod Life
pub mod Writes
pub mod Operations
pub mod Evolution
pub mod Indexed
pub mod Kept
pub mod Pool
pub mod Run
pub mod SortedList
mod Tests
