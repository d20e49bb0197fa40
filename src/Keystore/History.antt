-- ===== src/Keystore/History.antt =====
-- history.go: the write-once transaction history, and funding with its incoming records.
use symbiont_wallet.Base.{
  Bool, true, false, not, ◌&&◌, ◌||◌, none, some, List, [], ◌∷◌, ◌++◌, ltb, ◌==◌, Result, ok, err,
  if◌then◌else◌,
}
use symbiont_wallet.Base.Bytes.{Bytes, bytes_eq, bytes_lt, codes}
use symbiont_wallet.Base.Int64.{ℤ, pos, leb_ℤ, ltb_ℤ, eq_ℤ, add64}
use symbiont_wallet.Keystore.Types.{
  fresh, funded, state_eq, TransactionRecord, transaction_incoming, transaction_outgoing, Error,
  incomplete_history, incomplete_outgoing, invalid_direction, record_conflict, put_failed,
  address_not_fresh, no_anchored_record, invalid_incoming, total_mismatch,
}
use symbiont_wallet.Keystore.Bolt.{Bolt}
use symbiont_wallet.Keystore.Transaction.{Tx, ◌>>=◌, ◌>>◌, pure, fail_when, update}
use symbiont_wallet.Keystore.Store.{Db, find_record, put_record}
use symbiont_wallet.Keystore.Pending.{is_empty}
use symbiont_wallet.Keystore.Lifecycle.{has_outpoints}

-- `historyKey`.
unfoldable pub history_key : TransactionRecord → Result Error Bytes
history_key rec =
    if is_empty rec.txid
      || is_empty rec.destination
      || leb_ℤ rec.amount_sats (pos 0)
      || (rec.recorded_at == 0)
    then err incomplete_history
    else if bytes_eq rec.direction transaction_incoming
    then ok (codes "in:" ++ (rec.txid ++ (b':' ∷ rec.destination)))
    else if bytes_eq rec.direction transaction_outgoing
    then (if is_empty rec.source_address
          || is_empty rec.destination_type
          || ltb_ℤ rec.fee_sats (pos 0)
        then err incomplete_outgoing
        else ok (codes "out:" ++ rec.txid))
    else err invalid_direction

-- `bytes.Equal` of two encoded records, which agree where all fields do.
unfoldable pub history_eq : TransactionRecord → TransactionRecord → Bool
history_eq a b =
    bytes_eq a.direction b.direction
    && bytes_eq a.txid b.txid
    && bytes_eq a.source_address b.source_address
    && bytes_eq a.destination b.destination
    && bytes_eq a.destination_type b.destination_type
    && eq_ℤ a.amount_sats b.amount_sats
    && eq_ℤ a.fee_sats b.fee_sats
    && (a.recorded_at == b.recorded_at)

-- The order of `ListTransactions`.
unfoldable pub transaction_before : TransactionRecord → TransactionRecord → Bool
transaction_before a b =
    if a.recorded_at == b.recorded_at
    then bytes_lt b.txid a.txid
    else ltb b.recorded_at a.recorded_at

module _ (bolt : Bolt) where
  open bolt use {get, put}

  -- The second half of `putHistoryRecord`: an entry is written once.
  unfoldable pub write_once : Bytes → TransactionRecord → Tx (Db bolt) (Unit {0})
  write_once key rec db = elim (get db.transactions key) [
    | some existing ↦ if history_eq existing rec then ok (tt, db) else err record_conflict
    | none ↦ elim (put db.transactions key rec) [
      | some t ↦ ok (tt, record db { transactions = t })
      | none ↦ err put_failed
    ]
  ]

  -- `putHistoryRecord`.
  unfoldable pub put_history_record : TransactionRecord → Tx (Db bolt) (Unit {0})
  unfolding write_once
  put_history_record rec db = elim (history_key rec) [
    | ok key ↦ write_once key rec db
    | err e ↦ err e
  ]

  -- `PutTransaction`.
  unfoldable pub put_transaction : TransactionRecord → Db bolt → Result Error (Unit {0}) × Db bolt
  unfolding put_history_record
  put_transaction rec = update (put_history_record rec)

  -- The loop over `incoming`: it returns `recordedSats`.
  unfoldable pub record_incoming : Bytes → ℤ → List TransactionRecord → Tx (Db bolt) ℤ
  record_incoming addr total [] = pure total
  record_incoming addr total (history ∷ rest) = do
    fail_when
        (not (bytes_eq history.direction transaction_incoming)
          || not (bytes_eq history.destination addr))
        invalid_incoming
    put_history_record history
    record_incoming addr (add64 total history.amount_sats) rest

  -- What is asked of an external funding, and of no reserved change address.
  unfoldable pub check_incoming :
      Bool → Bytes → ℤ → List TransactionRecord → Tx (Db bolt) (Unit {0})
  unfolding record_incoming
  check_incoming true addr balance incoming = pure tt
  check_incoming false addr balance incoming = do
    fail_when (not (has_outpoints incoming)) no_anchored_record
    recorded ← record_incoming addr (pos 0) incoming
    fail_when (not (eq_ℤ recorded balance)) total_mismatch

  -- `MarkFundedAndRecordIncoming`: the result is `wasReserved`.
  unfoldable pub mark_funded_and_record_incoming :
      Bytes → ℤ → List TransactionRecord → Db bolt → Result Error Bool × Db bolt
  unfolding find_record put_record check_incoming
  mark_funded_and_record_incoming addr balance incoming = update do
    (key, rec) ← find_record bolt addr
    fail_when (not (state_eq rec.state fresh)) address_not_fresh
    check_incoming rec.reserved addr balance incoming
    put_record bolt key (record rec { state = funded; reserved = false })
    pure rec.reserved
