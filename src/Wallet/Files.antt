-- ===== src/Wallet/Files.antt =====
-- wallet.go: creating and opening a wallet's file.
use symbiont_wallet.Base.{
  ℕ, Bool, not, Option, none, some, length, ◌==◌, Result, ok, err, if◌then◌else◌,
}
use symbiont_wallet.Base.Bytes.{Bytes}
use symbiont_wallet.Keystore.Types.{seed_mismatch}
use symbiont_wallet.Keystore.Types as K
use symbiont_wallet.Keystore.Bolt.{Bolt}
use symbiont_wallet.Keystore.Generate.{Derived, pre_generate}
use symbiont_wallet.Keystore.Opening.{
  Buckets, buckets_of, KeyIndex, open_keystore, validate_existing,
}
use symbiont_wallet.Wallet.Types.{
  Error, keystore_error, bad_seed_length, directory_failed, wallet_exists, wallet_not_found,
  wallet_seed_mismatch, stat_failed, claim_failed,
}
use symbiont_wallet.Wallet.Observe.{pool_size}

-- `takeSeed`: a copy of the seed, which is erased in the caller's slice when it is taken.
unfoldable pub take_seed : Bytes → Result Error Bytes
take_seed seed = if not (length seed == 32) then err bad_seed_length else ok seed

module _ (bolt : Bolt) where
  -- What stands at a path: nothing, something that is no file or that cannot be inspected, an empty
  -- file, or a database.
  pub data File : Type 0 where
    absent : File
    irregular unreadable empty_file : File
    database : Buckets bolt → File

  -- `bolt.Open` on an empty file makes a database without buckets.
  abbrev pub no_buckets : Buckets bolt
  no_buckets = record {
    addresses = none;
    meta = none;
    transactions = none;
    pending_broadcasts = none;
  }

  -- What the files call: whether a directory is made, a file claimed, and bbolt opens it; HKDF, and
  -- `gcm.Open` under a key; and `deriveAddress` under the encryption key of the wallet.
  pub record World : Type 0 where
    pub makes_directory : Bool
    pub claims : Bool
    pub opens : Bool
    pub hkdf : Bytes → Bytes → ℕ → Option Bytes
    pub gcm_open : Bytes → Bytes → Bytes → Option Bytes
    pub derive : Bytes → Bytes → ℕ → Option Derived

  module _ (world : World) where
    open world use {makes_directory, claims, opens, hkdf, gcm_open, derive}

    -- `openWallet`: the wallet, and the buckets it leaves.
    unfoldable pub open_wallet : Bytes → Buckets bolt → Result Error (KeyIndex bolt) × Buckets bolt
    open_wallet own_seed file =
        let (opened, file') = open_keystore bolt opens hkdf own_seed file in
        elim opened [
          | err e ↦ (err (keystore_error e), file')
          | ok index ↦
              (let (filled, db) =
                  pre_generate bolt (derive (index.enc_key)) pool_size (some own_seed) (index.db) in
                (
                  elim filled [
                    | err e ↦ err (keystore_error e)
                    | ok u ↦ ok (record index { db = db })
                  ],
                  buckets_of bolt db,
                ))
        ]

    -- A failure removes the new file.
    abbrev pub or_removed :
        Result Error (KeyIndex bolt) × Buckets bolt → Result Error (KeyIndex bolt) × File
    or_removed (ok w, file) = (ok w, database file)
    or_removed (err e, file) = (err e, absent)

    -- The exclusive creation of a file where nothing stands.
    unfoldable pub create_at : Bytes → File → Result Error (KeyIndex bolt) × File
    unfolding open_wallet
    create_at own_seed absent =
        if claims then or_removed (open_wallet own_seed no_buckets) else (err claim_failed, absent)
    create_at own_seed irregular = (err wallet_exists, irregular)
    create_at own_seed unreadable = (err wallet_exists, unreadable)
    create_at own_seed empty_file = (err wallet_exists, empty_file)
    create_at own_seed (database b) = (err wallet_exists, database b)

    -- `CreateNew`.
    unfoldable pub create_new : Bytes → File → Result Error (KeyIndex bolt) × File
    unfolding take_seed create_at
    create_new seed file = elim (take_seed seed) [
      | err e ↦ (err e, file)
      | ok own_seed ↦
          if makes_directory then create_at own_seed file else (err directory_failed, file)
    ]

    abbrev pub stored_at :
        Result Error (KeyIndex bolt) × Buckets bolt → Result Error (KeyIndex bolt) × File
    stored_at (r, file) = (r, database file)

    abbrev pub validation_error : K.Error → Error
    validation_error seed_mismatch = wallet_seed_mismatch
    validation_error e = keystore_error e

    -- What `OpenExisting` does at each kind of path.
    unfoldable pub open_at : Bytes → File → Result Error (KeyIndex bolt) × File
    unfolding open_wallet
    open_at own_seed absent = (err wallet_not_found, absent)
    open_at own_seed irregular = (err wallet_not_found, irregular)
    open_at own_seed unreadable = (err stat_failed, unreadable)
    open_at own_seed empty_file = (err wallet_not_found, empty_file)
    open_at own_seed (database b) = elim (validate_existing bolt opens hkdf gcm_open own_seed b) [
      | err e ↦ (err (validation_error e), database b)
      | ok u ↦ stored_at (open_wallet own_seed b)
    ]

    -- `OpenExisting`.
    unfoldable pub open_existing : Bytes → File → Result Error (KeyIndex bolt) × File
    unfolding take_seed open_at
    open_existing seed file = elim (take_seed seed) [
      | err e ↦ (err e, file)
      | ok own_seed ↦ open_at own_seed file
    ]
