-- ===== src/Keystore/Queries.antt =====
-- keystore.go and history.go: the reads of `KeyIndex`, and `DecryptSeed`. AES-GCM is a parameter.
use symbiont_wallet.Base.{
  ℕ, Bool, Option, none, some, List, [], ◌∷◌, ◌++◌, map, length, take, drop, ltb, Result, ok, err,
  if◌then◌else◌,
}
use symbiont_wallet.Base.Bytes.{Bytes}
use symbiont_wallet.Keystore.Types.{
  AddressState, state_eq, AddressRecord, TransactionRecord, PendingBroadcast, Error,
  address_not_found, no_fresh_address, blob_too_short, gcm_open_failed, no_nonce,
}
use symbiont_wallet.Keystore.Bolt.{Bolt, Entries}
use symbiont_wallet.Keystore.Store.{Db, find_address}
use symbiont_wallet.Keystore.Pending.{pending_before}
use symbiont_wallet.Keystore.History.{transaction_before}
use symbiont_wallet.Keystore.Generate.{is_available}

-- The walk of `NextFreshAddress`.
unfoldable pub first_available : Entries AddressRecord → Option Bytes
first_available [] = none
first_available ((k, rec) ∷ m) =
    let rest = first_available m in if is_available rec then some (rec.address) else rest

-- The walk of `ListByState`.
unfoldable pub in_state : AddressState → Entries AddressRecord → List AddressRecord
in_state state [] = []
in_state state ((k, rec) ∷ m) =
    let rest = in_state state m in if state_eq (rec.state) state then rec ∷ rest else rest

-- `sort.Slice` by an order in which no two of the elements are equal.
module _ {A : Type 0} (before : A → A → Bool) where
  unfoldable pub insert_by : A → List A → List A
  insert_by a [] = a ∷ []
  insert_by a (b ∷ bs) = let rest = insert_by a bs in if before b a then b ∷ rest else a ∷ b ∷ bs

  unfoldable pub sort_by : List A → List A
  unfolding insert_by
  sort_by [] = []
  sort_by (a ∷ as') = insert_by a (sort_by as')

abbrev pub values_of : {V : Type 0} → Entries V → List V
values_of m = map (λ e. e.1) m

module _ (bolt : Bolt) where
  open bolt use {entries}

  -- `GetRecord`.
  unfoldable pub get_record : Bytes → Db bolt → Result Error AddressRecord
  get_record addr db = elim (find_address addr (entries (db.addresses))) [
    | some (key, rec) ↦ ok rec
    | none ↦ err address_not_found
  ]

  -- `NextFreshAddress`.
  unfoldable pub next_fresh_address : Db bolt → Result Error Bytes
  unfolding first_available
  next_fresh_address db = elim (first_available (entries (db.addresses))) [
    | some addr ↦ ok addr
    | none ↦ err no_fresh_address
  ]

  -- `ListByState`.
  unfoldable pub list_by_state : AddressState → Db bolt → List AddressRecord
  unfolding in_state
  list_by_state state db = in_state state (entries (db.addresses))

  -- `CountByState`.
  unfoldable pub count_by_state : AddressState → Db bolt → ℕ
  unfolding in_state
  count_by_state state db = length (in_state state (entries (db.addresses)))

  -- `ListPendingBroadcasts`.
  unfoldable pub list_pending_broadcasts : Db bolt → List PendingBroadcast
  unfolding sort_by
  list_pending_broadcasts db = sort_by pending_before (values_of (entries (db.pending_broadcasts)))

  -- `ListTransactions`. `sort.Slice` leaves open how records with one time and one ID are ordered: here
  -- they keep the order of their keys.
  unfoldable pub list_transactions : Db bolt → List TransactionRecord
  unfolding sort_by
  list_transactions db = sort_by transaction_before (values_of (entries (db.transactions)))

-- `decryptWithKey`, with `gcm.Open` under the key as a parameter; the nonce has 12 bytes.
unfoldable pub decrypt_seed : (Bytes → Bytes → Option Bytes) → Bytes → Result Error Bytes
decrypt_seed gcm_open blob =
    if ltb (length blob) 12
    then err blob_too_short
    else elim (gcm_open (take 12 blob) (drop 12 blob)) [
      | some plain ↦ ok plain
      | none ↦ err gcm_open_failed
    ]

-- `EncryptSeed`, with `gcm.Seal` under the key and 12 random bytes, `none` where none can be read.
unfoldable pub encrypt_seed : (Bytes → Bytes → Bytes) → Option Bytes → Bytes → Result Error Bytes
encrypt_seed gcm_seal none seed = err no_nonce
encrypt_seed gcm_seal (some nonce) seed = ok (nonce ++ gcm_seal nonce seed)
