-- ===== src/Keystore/Types.antt =====
-- keystore.go, history.go, pending.go: the stored records, the address states and the errors.
use symbiont_wallet.Base.{ℕ, Bool, List}
use symbiont_wallet.Base.Bytes.{Bytes, codes}
use symbiont_wallet.Base.Int64.{ℤ}

-- `AddressState`.
pub data AddressState : Type 0 where
  fresh funded spend_pending spent retired : AddressState

-- `AddressState.String`.
unfoldable pub state_string : AddressState → Bytes
state_string fresh = codes "FRESH"
state_string funded = codes "FUNDED"
state_string spend_pending = codes "SPEND_PENDING"
state_string spent = codes "SPENT"
state_string retired = codes "RETIRED"

-- The test `rec.State == s`.
abbrev pub state_eq : AddressState → AddressState → Bool
state_eq fresh fresh = Bool.true
state_eq funded funded = Bool.true
state_eq spend_pending spend_pending = Bool.true
state_eq spent spent = Bool.true
state_eq retired retired = Bool.true
state_eq _ _ = Bool.false

-- `RecoveryOutpoint`: `vout` is a uint32, `amount_sats` an int64.
pub record RecoveryOutpoint : Type 0 where
  pub txid : Bytes
  pub vout : ℕ
  pub amount_sats : ℤ

-- `AddressRecord`: an absent slice or string is the empty one, as Go reads it.
pub record AddressRecord : Type 0 where
  pub index : ℕ
  pub address : Bytes
  pub public_key : Bytes
  pub enc_seed_blob : Bytes
  pub state : AddressState
  pub has_recoverable_balance : Bool
  pub recoverable_outpoints : List RecoveryOutpoint
  pub recovery_pending_outpoints : List RecoveryOutpoint
  pub recovery_spend_txid : Bytes
  pub reserved : Bool
  pub spend_txid : Bytes

-- `TransactionRecord`. A time is the nanoseconds since Go's zero time, so 0 is `IsZero`.
pub record TransactionRecord : Type 0 where
  pub direction : Bytes
  pub txid : Bytes
  pub source_address : Bytes
  pub destination : Bytes
  pub destination_type : Bytes
  pub amount_sats : ℤ
  pub fee_sats : ℤ
  pub recorded_at : ℕ

-- `TransactionIncoming` and `TransactionOutgoing`.
abbrev pub transaction_incoming : Bytes
transaction_incoming = codes "incoming"

abbrev pub transaction_outgoing : Bytes
transaction_outgoing = codes "outgoing"

-- `PendingBroadcast`.
pub record PendingBroadcast : Type 0 where
  pub txid : Bytes
  pub raw_hex : Bytes
  pub kind : Bytes
  pub source_address : Bytes
  pub destination : Bytes
  pub destination_type : Bytes
  pub amount_sats : ℤ
  pub fee_sats : ℤ
  pub signed_at : ℕ

-- The errors of the package: the declared ones, and one for each message made in place.
pub data Error : Type 0 where
  address_not_fresh address_not_funded address_not_pending address_not_spent : Error
  recovery_not_available recovery_in_progress no_fresh_address : Error
  master_seed_not_loaded invalid_seed_length incompatible_db seed_mismatch : Error
  no_validation_record address_not_found put_failed corrupted_next_index derive_failed : Error
  incomplete_history incomplete_outgoing invalid_direction record_conflict : Error
  no_anchored_record invalid_incoming total_mismatch : Error
  incomplete_pending pending_conflict pending_mismatch : Error
  blob_too_short gcm_open_failed no_nonce open_failed key_failed : Error
