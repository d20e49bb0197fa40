-- ===== src/Keystore/Opening.antt =====
-- keystore.go: opening a database file. The file is its buckets, which may be missing.
use symbiont_wallet.Base.{
  ℕ, Bool, not, ◌||◌, Option, none, some, [], ◌∷◌, length, ◌==◌, Result, ok, err, fail_if, ◌>>◌,
  if◌then◌else◌,
}
use symbiont_wallet.Base.Bytes.{Bytes, codes}
use symbiont_wallet.Base.Words.{put_be, be_value}
use symbiont_wallet.Keystore.Types.{
  AddressRecord, TransactionRecord, PendingBroadcast, Error, invalid_seed_length, incompatible_db,
  seed_mismatch, no_validation_record, put_failed, open_failed, key_failed,
}
use symbiont_wallet.Keystore.Bolt.{Bolt, Entries}
use symbiont_wallet.Keystore.Transaction.{Tx}
use symbiont_wallet.Keystore.Store.{Db}
use symbiont_wallet.Keystore.Queries.{decrypt_seed}

-- `schemaVersion` and `keySchemaVersion`.
abbrev pub schema_version : ℕ
schema_version = 2

abbrev pub schema_version_key : Bytes
schema_version_key = codes "schema_version"

-- The HKDF info of the encryption key.
abbrev pub enc_key_info : Bytes
enc_key_info = codes "qoge-keyindex-aes256-gcm"

-- The walk of `ValidateExisting`: the first encrypted key that is not empty.
unfoldable pub first_blob : Entries AddressRecord → Bytes
first_blob [] = []
first_blob ((k, rec) ∷ m) =
    let rest = first_blob m in if length (rec.enc_seed_blob) == 0 then rest else rec.enc_seed_blob

-- The test of a stored schema version.
unfoldable pub is_schema : Bytes → Bool
is_schema v = not (not (length v == 8) || not (be_value v == schema_version))

module _ (bolt : Bolt) where
  open bolt use {Bucket, empty, get, put, entries}

  -- A file's buckets.
  pub record Buckets : Type 0 where
    pub addresses : Option (Bucket AddressRecord)
    pub meta : Option (Bucket Bytes)
    pub transactions : Option (Bucket TransactionRecord)
    pub pending_broadcasts : Option (Bucket PendingBroadcast)

  abbrev pub bucket_or_empty : {V : Type 0} → Option (Bucket V) → Bucket V
  bucket_or_empty none = empty
  bucket_or_empty (some t) = t

  -- `CreateBucketIfNotExists` for each bucket.
  unfoldable pub create_buckets : Buckets → Db bolt
  create_buckets file = record {
    addresses = bucket_or_empty (file.addresses);
    meta = bucket_or_empty (file.meta);
    transactions = bucket_or_empty (file.transactions);
    pending_broadcasts = bucket_or_empty (file.pending_broadcasts);
  }

  abbrev pub buckets_of : Db bolt → Buckets
  buckets_of db = record {
    addresses = some (db.addresses);
    meta = some (db.meta);
    transactions = some (db.transactions);
    pending_broadcasts = some (db.pending_broadcasts);
  }

  -- The check of the schema, which writes the version of a new database.
  unfoldable pub check_schema : Tx (Db bolt) (Unit {0})
  unfolding is_schema
  check_schema db = elim (get (db.meta) schema_version_key) [
    | some v ↦ if is_schema v then ok (tt, db) else err incompatible_db
    | none ↦ elim (entries (db.addresses)) [
      | e ∷ es ↦ err incompatible_db
      | [] ↦ elim (put (db.meta) schema_version_key (put_be 8 schema_version)) [
        | none ↦ err put_failed
        | some t ↦ ok (tt, record db { meta = t })
      ]
    ]
  ]

  -- A database that is open, with its encryption key.
  pub record KeyIndex : Type 0 where
    pub db : Db bolt
    pub master_seed : Bytes
    pub enc_key : Bytes

  -- `Open`, with whether bbolt opens the file and with HKDF-SHA256: what is opened, and the file.
  unfoldable pub open_keystore :
      Bool → (Bytes → Bytes → ℕ → Option Bytes) → Bytes → Buckets → Result Error KeyIndex × Buckets
  unfolding create_buckets check_schema
  open_keystore opens hkdf seed file =
      if not (length seed == 32)
      then (err invalid_seed_length, file)
      else if not opens
      then (err open_failed, file)
      else elim (check_schema (create_buckets file)) [
        | err e ↦ (err e, file)
        | ok (u, db) ↦ elim (hkdf seed enc_key_info 32) [
          | none ↦ (err key_failed, buckets_of db)
          | some key ↦ (ok (record { db = db; master_seed = seed; enc_key = key }), buckets_of db)
        ]
      ]

  -- `ValidateExisting`, with `gcm.Open` under a key. It reads only.
  unfoldable pub validate_existing :
      Bool
      → (Bytes → Bytes → ℕ → Option Bytes)
      → (Bytes → Bytes → Bytes → Option Bytes)
      → Bytes
      → Buckets
      → Result Error (Unit {0})
  unfolding first_blob is_schema
  validate_existing opens hkdf gcm_open seed file =
      fail_if (not (length seed == 32)) invalid_seed_length
      >> fail_if (not opens) open_failed
      >> elim (hkdf seed enc_key_info 32) [
        | none ↦ err key_failed
        | some key ↦ elim (file.addresses) [
          | none ↦ err incompatible_db
          | some addresses ↦ elim (file.meta) [
            | none ↦ err incompatible_db
            | some meta ↦
                let blob = first_blob (entries addresses) in
                elim (get meta schema_version_key) [
                  | none ↦ err incompatible_db
                  | some v ↦
                      fail_if (not (is_schema v)) incompatible_db
                      >> fail_if (length blob == 0) no_validation_record
                      >> elim (decrypt_seed (gcm_open key) blob) [
                        | err e ↦ err seed_mismatch
                        | ok plain ↦ ok tt
                      ]
                ]
          ]
        ]
      ]
