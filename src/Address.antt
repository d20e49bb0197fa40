-- ===== src/Address.antt =====
-- address/bech32m.go and address/address.go: the Bech32m codec and the wallet's addresses.
pub mod Checksum
pub mod Codec
pub mod Format
pub mod Destination
pub mod Agreement
pub mod Regroup
mod Tests
