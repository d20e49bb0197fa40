-- ===== src/Scan/Types.antt =====
-- client.go, balance.go and deposits.go of internal/rpcclient: a scan and what is made of it. The
-- `float64` of an amount and its text with eight decimals, `fmt.Sprintf("%.8f", x)`, are parameters.
use symbiont_wallet.Base.{ℕ, Bool, List, Result}
use symbiont_wallet.Base.Bytes.{Bytes}
use symbiont_wallet.Base.Int64.{ℤ, pos, ltb_ℤ}
use symbiont_wallet.Address.Codec as A
use symbiont_wallet.Amounts.Convert.{DecimalError, parse_qoge_decimal}

-- `ScanUnspent`: `vout` is a uint32, `height` an int64.
pub record ScanUnspent (Float : Type 0) : Type 0 where
  pub txid : Bytes
  pub vout : ℕ
  pub script_pub_key : Bytes
  pub desc : Bytes
  pub amount : Float
  pub height : ℤ

-- `ScanResult`.
pub record ScanResult (Float : Type 0) : Type 0 where
  pub success : Bool
  pub txouts : ℤ
  pub height : ℤ
  pub best_block : Bytes
  pub unspents : List (ScanUnspent Float)
  pub total_amount : Float

-- `FundingStatus`.
pub record FundingStatus : Type 0 where
  pub balance_sats : ℤ
  pub confirmations : ℤ

-- `Deposit`.
pub record Deposit : Type 0 where
  pub txid : Bytes
  pub amount_sats : ℤ

pub data Error : Type 0 where
  address_error : A.Error → Error
  decimal_error : DecimalError → Error
  empty_txid : Error

-- `BalanceWarningThresholdSats` and `ExceedsConcentrationThreshold`.
abbrev pub balance_warning_threshold_sats : ℕ
balance_warning_threshold_sats = 500000000000000

unfoldable pub exceeds_concentration_threshold : ℤ → Bool
exceeds_concentration_threshold satoshis = ltb_ℤ (pos balance_warning_threshold_sats) satoshis

module _ {Float : Type 0} (fixed8 : Float → Bytes) where
  -- `FloatQOGEToSatoshis`.
  unfoldable pub float_qoge_to_satoshis : Float → Result DecimalError ℤ
  float_qoge_to_satoshis amount = parse_qoge_decimal (fixed8 amount)
