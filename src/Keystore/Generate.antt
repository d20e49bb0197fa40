-- ===== src/Keystore/Generate.antt =====
-- keystore.go: the index counter, `GenerateAddress` and `PreGenerate`.
use symbiont_wallet.Base.{
  ℕ, zero, suc, ◌+◌, ◌-◌, ◌%◌, Bool, false, not, ◌&&◌, Option, none, some, [], ◌∷◌, length, ◌==◌,
  Result, ok, err, if◌then◌else◌,
}
use symbiont_wallet.Base.Bytes.{Bytes, codes}
use symbiont_wallet.Base.Int64.{word}
use symbiont_wallet.Base.Words.{put_be, be_value}
use symbiont_wallet.Keystore.Types.{
  fresh, state_eq, AddressRecord, Error, corrupted_next_index, put_failed, derive_failed,
  master_seed_not_loaded,
}
use symbiont_wallet.Keystore.Bolt.{Bolt, Entries}
use symbiont_wallet.Keystore.Transaction.{Tx, ◌>>=◌, ◌>>◌, pure, update}
use symbiont_wallet.Keystore.Store.{Db, put_record, index_key}

abbrev pub next_index_key : Bytes
next_index_key = codes "next_index"

-- What a `deriveFn` returns: the public key, the encrypted seed and the address.
pub record Derived : Type 0 where
  pub public_key : Bytes
  pub enc_seed : Bytes
  pub address : Bytes

-- The record that `GenerateAddress` writes.
abbrev pub new_record : ℕ → Derived → AddressRecord
new_record idx d = record {
  index = idx;
  address = d.address;
  public_key = d.public_key;
  enc_seed_blob = d.enc_seed;
  state = fresh;
  has_recoverable_balance = false;
  recoverable_outpoints = [];
  recovery_pending_outpoints = [];
  recovery_spend_txid = [];
  reserved = false;
  spend_txid = [];
}

-- The test of `CountAvailableFresh` and `NextFreshAddress`.
abbrev pub is_available : AddressRecord → Bool
is_available rec = state_eq rec.state fresh && not rec.reserved

-- The count of `CountAvailableFresh`, over what `ForEach` yields.
unfoldable pub count_available : Entries AddressRecord → ℕ
count_available [] = 0
count_available ((k, rec) ∷ m) =
    let rest = count_available m in if is_available rec then suc rest else rest

module _ (bolt : Bolt) where
  open bolt use {get, put, entries}

  -- `nextIndex`.
  unfoldable pub next_index : Tx (Db bolt) ℕ
  next_index db = elim (get db.meta next_index_key) [
    | none ↦ ok (0, db)
    | some v ↦ if length v == 8 then ok (be_value v, db) else err corrupted_next_index
  ]

  -- `incrementIndex`: the uint64 `idx + 1`.
  unfoldable pub increment_index : ℕ → Tx (Db bolt) (Unit {0})
  increment_index idx db = elim (put db.meta next_index_key (put_be 8 ((idx + 1) % word))) [
    | some t ↦ ok (tt, record db { meta = t })
    | none ↦ err put_failed
  ]

  -- `CountAvailableFresh`.
  unfoldable pub count_available_fresh : Db bolt → ℕ
  unfolding count_available
  count_available_fresh db = count_available (entries db.addresses)

  module _ (derive : Bytes → ℕ → Option Derived) where
    abbrev pub derive_at : Bytes → ℕ → Tx (Db bolt) Derived
    derive_at seed idx db = elim (derive seed idx) [
      | some d ↦ ok (d, db)
      | none ↦ err derive_failed
    ]

    -- The transaction of `GenerateAddress`.
    unfoldable pub generate : Bytes → Tx (Db bolt) Bytes
    unfolding next_index increment_index put_record
    generate seed = do
      idx ← next_index
      d ← derive_at seed idx
      put_record bolt (index_key idx) (new_record idx d)
      increment_index idx
      pure d.address

    -- `GenerateAddress`; the seed is `none` where `masterSeed` is nil.
    unfoldable pub generate_address : Option Bytes → Db bolt → Result Error Bytes × Db bolt
    unfolding generate
    generate_address none = λ db. (err master_seed_not_loaded, db)
    generate_address (some seed) = update (generate seed)

    -- The loop of `PreGenerate`: what was generated before an error stays.
    unfoldable pub generate_loop : ℕ → Option Bytes → Db bolt → Result Error (Unit {0}) × Db bolt
    generate_loop zero seed db = (ok tt, db)
    generate_loop (suc n) seed db =
        let (r, db') = generate_address seed db in
        elim r [ ok addr ↦ generate_loop n seed db' | err e ↦ (err e, db') ]

    -- `PreGenerate`, for a pool of `n`.
    unfoldable pub pre_generate : ℕ → Option Bytes → Db bolt → Result Error (Unit {0}) × Db bolt
    unfolding generate_loop count_available_fresh
    pre_generate n seed db = generate_loop (n - count_available_fresh db) seed db
