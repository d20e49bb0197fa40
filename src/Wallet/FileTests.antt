-- ===== src/Wallet/FileTests.antt =====
-- A wallet that is created where nothing stands, and opened again.
use symbiont_wallet.Base.{
  ℕ, ◌≡◌, refl, subst, Bool, true, false, some, [], ◌∷◌, ◌++◌, replicate, ok, err, arith, Result,
}
use symbiont_wallet.Base.Bytes.{Bytes, bytes_eq, bytes_lt}
use symbiont_wallet.Base.Words.{put_be, be_value}
use symbiont_wallet.Keystore.Bolt.{lookup, insert}
use symbiont_wallet.Keystore.Transaction.{◌>>=◌, pure, update}
use symbiont_wallet.Keystore.Store.{index_key}
use symbiont_wallet.Keystore.Generate.{
  Derived, next_index, generate, generate_address, generate_loop, pre_generate, count_available,
  count_available_fresh,
}
use symbiont_wallet.Keystore.Queries.{decrypt_seed}
use symbiont_wallet.Keystore.SortedList.{sorted_list_bolt}
use symbiont_wallet.Keystore.Opening.{KeyIndex, open_keystore, check_schema, create_buckets}
use symbiont_wallet.Wallet.Types.{Error}
use symbiont_wallet.Wallet.Files.{
  File, absent, World, take_seed, create_at, create_new, open_wallet, open_existing,
}
use symbiont_wallet.Wallet.Created.{
  Unlocks, IsUnlocking, Creates, validate_existing-create_new, IsGuarded, open_existing-IsGuarded,
}

-- A key that stands after its nonce as it is.
abbrev derived_toy : ℕ → Derived
derived_toy idx = record {
  public_key = idx ∷ [];
  enc_seed = replicate 12 0 ++ (idx ∷ []);
  address = b'q' ∷ idx ∷ [];
}

abbrev toy_world : World sorted_list_bolt
toy_world = record {
  makes_directory = true;
  claims = true;
  opens = true;
  hkdf = λ seed info n. some (replicate n 1);
  gcm_open = λ key nonce ct. some ct;
  derive = λ key seed idx. some (derived_toy idx);
}

abbrev toy_seed : Bytes
toy_seed = replicate 32 7

toy_opens :
    (key : Bytes) (idx : ℕ) → Unlocks sorted_list_bolt toy_world key ((derived_toy idx).enc_seed)
unfolding decrypt_seed
toy_opens key idx = (omega arith, idx ∷ [], refl)

toy_seed-IsUnlocking : IsUnlocking sorted_list_bolt toy_world toy_seed
toy_seed-IsUnlocking key keyed idx d e =
    let same : derived_toy idx ≡ d = ground arith in
    subst (λ (x : Derived). Unlocks sorted_list_bolt toy_world key (x.enc_seed)) same
      (toy_opens key idx)

abbrev outcome : Result Error (KeyIndex sorted_list_bolt) × File sorted_list_bolt
outcome = create_new sorted_list_bolt toy_world toy_seed absent

abbrev blank_index : KeyIndex sorted_list_bolt
blank_index = record {
  db = record {
    addresses = ([], tt);
    meta = ([], tt);
    transactions = ([], tt);
    pending_broadcasts = ([], tt);
  };
  master_seed = [];
  enc_key = [];
}

abbrev index_of : Result Error (KeyIndex sorted_list_bolt) → KeyIndex sorted_list_bolt
index_of (ok w) = w
index_of (err e) = blank_index

abbrev is_ok : Result Error (KeyIndex sorted_list_bolt) → Bool
is_ok (ok w) = true
is_ok (err e) = false

of_ok :
    (r : Result Error (KeyIndex sorted_list_bolt) × File sorted_list_bolt)
    → is_ok (r.0) ≡ true
    → r ≡ (ok (index_of (r.0)), r.1)
of_ok (ok w, file) h = refl
of_ok (err e, file) h = absurd (ground (arith, h))

accepted : is_ok (outcome.0) ≡ true
unfolding create_new take_seed create_at open_wallet open_keystore check_schema create_buckets
    pre_generate generate_loop generate_address generate count_available_fresh count_available
    next_index update lookup insert index_key put_be be_value ◌>>=◌ pure bytes_eq bytes_lt
accepted = refl

validate_existing-create_new_example :
    Creates sorted_list_bolt toy_world toy_seed absent (outcome.1)
validate_existing-create_new_example =
    validate_existing-create_new sorted_list_bolt toy_world toy_seed absent (outcome.1)
      (index_of (outcome.0)) toy_seed-IsUnlocking (of_ok outcome accepted)

open_existing-IsGuarded_example :
    IsGuarded sorted_list_bolt toy_world toy_seed
      (outcome.1)
      (open_existing sorted_list_bolt toy_world toy_seed (outcome.1))
open_existing-IsGuarded_example =
    open_existing-IsGuarded sorted_list_bolt toy_world toy_seed (outcome.1)
