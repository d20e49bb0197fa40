-- ===== src/Keystore/Tests.antt =====
-- The keystore on a small database, and its theorems at concrete inputs.
use symbiont_wallet.Base.{
  ℕ, ◌+◌, ◌-◌, Result, ok, ◌≤◌, ◌≡◌, refl, false, Option, some, List, [], ◌∷◌, arith,
}
use symbiont_wallet.Base.Bytes.{Bytes, bytes_eq, bytes_lt, codes}
use symbiont_wallet.Base.Words.{put_be, be_value}
use symbiont_wallet.Keystore.Types.{AddressRecord, fresh, Error}
use symbiont_wallet.Keystore.Bolt.{lookup, insert}
use symbiont_wallet.Keystore.Transaction.{◌>>=◌, pure, update}
use symbiont_wallet.Keystore.Store.{Db, index_key}
use symbiont_wallet.Keystore.Generate.{
  Derived, next_index, generate, generate_address, generate_loop, pre_generate, count_available,
  count_available_fresh,
}
use symbiont_wallet.Keystore.Kept.{Keeps}
use symbiont_wallet.Keystore.Pool.{pre_generate_ok}
use symbiont_wallet.Keystore.Operations.{
  Operation, generate_op, mark_funded_op, mark_spend_pending_op, mark_spent_op, retire_op, apply,
  run,
}
use symbiont_wallet.Keystore.Inversion.{rows}
use symbiont_wallet.Keystore.Life.{OneWay}
use symbiont_wallet.Keystore.Indexed.{IsIndexed}
use symbiont_wallet.Keystore.Run.{run-IsIndexed, run-OneWay}
use symbiont_wallet.Keystore.SortedList.{sorted_list_bolt}

-- A key of one byte, and an address that names its index.
abbrev derive_toy : Bytes → ℕ → Option Derived
derive_toy seed idx =
    some (record { public_key = idx ∷ []; enc_seed = 7 ∷ idx ∷ []; address = b'q' ∷ idx ∷ [] })

abbrev seed_toy : Option Bytes
seed_toy = some (1 ∷ 2 ∷ 3 ∷ [])

abbrev empty_db : Db sorted_list_bolt
empty_db = record {
  addresses = ([], tt);
  meta = ([], tt);
  transactions = ([], tt);
  pending_broadcasts = ([], tt);
}

abbrev two_addresses : List Operation
two_addresses = generate_op ∷ generate_op ∷ []

abbrev spend_first : List Operation
spend_first =
    mark_funded_op (b'q' ∷ 0 ∷ [])
    ∷ mark_spend_pending_op (b'q' ∷ 0 ∷ []) (b'q' ∷ 1 ∷ []) (codes "t1") []
    ∷ mark_spent_op (b'q' ∷ 0 ∷ [])
    ∷ generate_op
    ∷ retire_op (b'q' ∷ 0 ∷ [])
    ∷ []

abbrev db_two : Db sorted_list_bolt
db_two = run sorted_list_bolt derive_toy seed_toy two_addresses empty_db

abbrev first_record : AddressRecord
first_record = record {
  index = 0;
  address = b'q' ∷ 0 ∷ [];
  public_key = 0 ∷ [];
  enc_seed_blob = 7 ∷ 0 ∷ [];
  state = fresh;
  has_recoverable_balance = false;
  recoverable_outpoints = [];
  recovery_pending_outpoints = [];
  recovery_spend_txid = [];
  reserved = false;
  spend_txid = [];
}

empty_db-IsIndexed : IsIndexed sorted_list_bolt empty_db 0
unfolding next_index lookup
empty_db-IsIndexed = record { counter = refl; placed = λ k r e. cc }

first_stored : lookup (index_key 0) (rows sorted_list_bolt db_two) ≡ some first_record
unfolding run apply generate_address generate update lookup insert index_key put_be be_value ◌>>=◌
    pure bytes_eq bytes_lt
first_stored = refl

run-IsIndexed_example : (m : ℕ) × (0 ≤ m) × (m ≤ 2) × IsIndexed sorted_list_bolt db_two m
run-IsIndexed_example =
    run-IsIndexed sorted_list_bolt derive_toy seed_toy two_addresses empty_db 0 empty_db-IsIndexed
      (omega arith)

run-OneWay_example :
    (rec' : AddressRecord) × (lookup
        (index_key 0)
        (rows sorted_list_bolt (run sorted_list_bolt derive_toy seed_toy spend_first db_two))
      ≡ some rec')
    × OneWay first_record rec'
run-OneWay_example =
    run-OneWay sorted_list_bolt derive_toy seed_toy spend_first db_two run-IsIndexed_example.0
      (index_key 0) first_record run-IsIndexed_example.3 (omega (arith, run-IsIndexed_example.2))
      first_stored

abbrev filled : Result Error (Unit {0}) × Db sorted_list_bolt
filled = pre_generate sorted_list_bolt derive_toy 4 seed_toy db_two

filled_ok : filled ≡ (ok tt, filled.1)
unfolding run apply generate_address generate generate_loop pre_generate update lookup insert
    index_key put_be be_value ◌>>=◌ pure bytes_eq bytes_lt next_index count_available
    count_available_fresh
filled_ok = refl

pre_generate_ok_example :
    Keeps sorted_list_bolt db_two (filled.1)
    × (count_available_fresh sorted_list_bolt (filled.1)
        ≡ count_available_fresh sorted_list_bolt db_two
          + (4 - count_available_fresh sorted_list_bolt db_two))
pre_generate_ok_example =
    pre_generate_ok sorted_list_bolt derive_toy seed_toy 4 db_two (filled.1) run-IsIndexed_example.0
      run-IsIndexed_example.3 (omega (arith, run-IsIndexed_example.2)) filled_ok
