-- ===== src/Keystore/Store.antt =====
-- The database of keystore.go: its four buckets, `db.Update` with its rollback, and the access to
-- address records that every operation shares.
use symbiont_wallet.Base.{ℕ, Option, none, some, [], ◌∷◌, if◌then◌else◌, ok, err}
use symbiont_wallet.Base.Bytes.{Bytes, bytes_eq}
use symbiont_wallet.Base.Words.{put_be}
use symbiont_wallet.Keystore.Types.{
  AddressRecord, TransactionRecord, PendingBroadcast, address_not_found, put_failed,
}
use symbiont_wallet.Keystore.Bolt.{Bolt, Entries}
use symbiont_wallet.Keystore.Transaction.{Tx}

-- `indexKey`: a uint64 as eight bytes.
unfoldable pub index_key : ℕ → Bytes
index_key idx = put_be 8 idx

-- The scan of `findRecord`, over what `ForEach` yields.
unfoldable pub find_address : Bytes → Entries AddressRecord → Option (Bytes × AddressRecord)
find_address addr [] = none
find_address addr ((k, rec) ∷ m) =
    if bytes_eq rec.address addr then some (k, rec) else find_address addr m

module _ (bolt : Bolt) where
  open bolt use {Bucket, get, put, entries}

  pub record Db : Type 0 where
    pub addresses : Bucket AddressRecord
    pub meta : Bucket Bytes
    pub transactions : Bucket TransactionRecord
    pub pending_broadcasts : Bucket PendingBroadcast

  -- `findRecord`.
  unfoldable pub find_record : Bytes → Tx Db (Bytes × AddressRecord)
  find_record addr db = elim (find_address addr (entries db.addresses)) [
    | some found ↦ ok (found, db)
    | none ↦ err address_not_found
  ]

  -- `putRecord`.
  unfoldable pub put_record : Bytes → AddressRecord → Tx Db (Unit {0})
  put_record key rec db = elim (put db.addresses key rec) [
    | some t ↦ ok (tt, record db { addresses = t })
    | none ↦ err put_failed
  ]
