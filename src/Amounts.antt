-- ===== src/Amounts.antt =====
-- Amounts as text: `QOGEToSatoshis` and `ParseFeeRate` of internal/txbuilder/txbuilder.go,
-- `parseQOGEDecimal` and `FormatQOGE` of internal/rpcclient/balance.go.
pub mod Convert
pub mod Bounds
pub mod RoundTrip
mod Tests
