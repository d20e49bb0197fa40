-- ===== src/Wallet/History.antt =====
-- wallet/history.go: what is recorded of a transaction that was broadcast.
use symbiont_wallet.Base.{ℕ, Result}
use symbiont_wallet.Base.Bytes.{Bytes}
use symbiont_wallet.Base.Int64.{ℤ}
use symbiont_wallet.Keystore.Types.{TransactionRecord, transaction_outgoing}
use symbiont_wallet.Keystore.Types as K
use symbiont_wallet.Keystore.Bolt.{Bolt}
use symbiont_wallet.Keystore.Store.{Db}
use symbiont_wallet.Keystore.History.{put_transaction}

-- `OutgoingTransaction`, with the UTC time of the broadcast as a number.
pub record OutgoingTransaction : Type 0 where
  pub txid : Bytes
  pub source_address : Bytes
  pub destination : Bytes
  pub destination_type : Bytes
  pub amount_sats : ℤ
  pub fee_sats : ℤ
  pub broadcast_at : ℕ

abbrev pub outgoing_record : OutgoingTransaction → TransactionRecord
outgoing_record out = record {
  direction = transaction_outgoing;
  txid = out.txid;
  source_address = out.source_address;
  destination = out.destination;
  destination_type = out.destination_type;
  amount_sats = out.amount_sats;
  fee_sats = out.fee_sats;
  recorded_at = out.broadcast_at;
}

module _ (bolt : Bolt) where
  -- `RecordOutgoingTransaction`.
  unfoldable pub record_outgoing_transaction :
      OutgoingTransaction → Db bolt → Result K.Error (Unit {0}) × Db bolt
  record_outgoing_transaction out db = put_transaction bolt (outgoing_record out) db
