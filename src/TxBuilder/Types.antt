-- ===== src/TxBuilder/Types.antt =====
-- txbuilder.go: the data of a transaction and of its plans, and the errors.
use symbiont_wallet.Base.{ℕ, Bool, List}
use symbiont_wallet.Base.Bytes.{Bytes}
use symbiont_wallet.Base.Int64.{ℤ}

-- `SLHDSASigLen` and `SLHDSAPKLen`.
abbrev pub sig_len : ℕ
sig_len = 17088

abbrev pub pk_len : ℕ
pk_len = 32

-- `TxInput`: `txid_le` is a `[32]byte`, the others are uint32.
pub record TxInput : Type 0 where
  pub txid_le : Bytes
  pub vout : ℕ
  pub n_sequence : ℕ

-- `TxOutput`.
pub record TxOutput : Type 0 where
  pub amount : ℤ
  pub script : Bytes

-- `P2QPKFeePlan`.
pub record FeePlan : Type 0 where
  pub fee_sats : ℤ
  pub change_sats : ℤ
  pub vsize : ℤ
  pub include_change : Bool

-- `P2QPKWithdrawAllPlan`.
pub record WithdrawAllPlan : Type 0 where
  pub send_sats : ℤ
  pub fee_sats : ℤ
  pub vsize : ℤ

-- `P2QPKCoin`.
pub record Coin : Type 0 where
  pub id : Bytes
  pub vout : ℕ
  pub amount_sats : ℤ

-- `P2QPKCoinSelection`.
pub record CoinSelection : Type 0 where
  pub selected : List Coin
  pub unselected : List Coin
  pub selected_total : ℤ
  pub unselected_total : ℤ

-- `P2QPKWitness`.
pub record Witness : Type 0 where
  pub sig : Bytes
  pub pub_key : Bytes

-- `SignedP2QPKTx`: `n_version` is the bit pattern `uint32(tx.NVersion)`.
pub record SignedTx : Type 0 where
  pub n_version : ℕ
  pub n_lock_time : ℕ
  pub inputs : List TxInput
  pub outputs : List TxOutput
  pub witnesses : List Witness

-- One constructor for each message of the package.
pub data Error : Type 0 where
  no_utxos amount_not_positive duplicate_utxo total_overflows : Error
  send_not_positive rate_not_positive script_empty insufficient_funds : Error
  no_inputs no_outputs witness_count bad_sig_len bad_pub_key_len negative_output : Error
  invalid_marker truncated missing_inputs missing_outputs trailing_bytes : Error
  count_not_positive too_many_inputs too_large vsize_not_positive fee_overflows : Error
  total_not_positive not_covered : Error
  empty_amount invalid_amount amount_too_large too_many_decimals invalid_fraction : Error
  fee_negative invalid_rate invalid_hex bad_txid_length : Error
