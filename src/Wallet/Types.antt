-- ===== src/Wallet/Types.antt =====
-- wallet.go: the parameters of a spend, the errors, and the code outside of the repository.
use symbiont_wallet.Base.{ℕ, List, Option}
use symbiont_wallet.Base.Bytes.{Bytes}
use symbiont_wallet.Base.Int64.{ℤ}
use symbiont_wallet.Keystore.Types as K
use symbiont_wallet.TxBuilder.Types as T
use symbiont_wallet.Address.Codec as A
use symbiont_wallet.Signer.Keys as Signer
use symbiont_wallet.Address.Format.{Convert}

-- What the wallet calls and does not contain: SHA-256, `bech32.ConvertBits` of btcutil, `gcm.Open`
-- under the wallet's key, and the signature of liboqs under a secret key.
pub record Crypto : Type 0 where
  pub sha256 : Bytes → Bytes
  pub convert_bits : Convert
  pub gcm_open : Bytes → Bytes → Option Bytes
  pub oqs_sign : Bytes → Bytes → Option Bytes

-- `P2QPKSpendParams`. A `SpendInput` has the fields of a `TxInput`; a `SpentUTXO` and a
-- `SpendOutput` have those of a `TxOutput`.
pub record SpendParams : Type 0 where
  pub n_version : ℕ
  pub n_lock_time : ℕ
  pub inputs : List T.TxInput
  pub spent_utxos : List T.TxOutput
  pub outputs : List T.TxOutput
  pub input_index : ℕ
  pub from_addr : Bytes
  pub change_addr : Bytes

-- `PendingBroadcastDetails`.
pub record Details : Type 0 where
  pub destination : Bytes
  pub destination_type : Bytes
  pub amount_sats : ℤ
  pub fee_sats : ℤ

-- One constructor for each error of the package, and one for each package whose errors it wraps.
pub data Error : Type 0 where
  keystore_error : K.Error → Error
  builder_error : T.Error → Error
  address_error : A.Error → Error
  recovery_not_available from_not_funded recovery_outpoints_changed : Error
  no_inputs inputs_mismatch index_out_of_range : Error
  duplicate_prevout amount_not_positive script_mismatch no_outputs negative_output : Error
  change_not_fresh change_reserved change_output_missing change_output_ambiguous : Error
  no_change_outputs : Error
  bad_secret_key bad_public_key sign_failed : Error
  txid_mismatch input_total_overflows output_total_overflows outputs_exceed_inputs : Error
  metadata_mismatch : Error
  spend_txid_mismatch not_pending below_minimum : Error
  signer_error : Signer.Error → Error
  hkdf_failed change_not_indexed : Error
  bad_seed_length directory_failed wallet_exists wallet_not_found wallet_seed_mismatch : Error
  stat_failed claim_failed : Error
