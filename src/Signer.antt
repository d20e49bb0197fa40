-- ===== src/Signer.antt =====
-- signer/slhdsa.go: keys from a seed, and signatures, over liboqs.
pub mod Keys
pub mod Seeded
mod Tests
