-- ===== src/Wallet/Tests.antt =====
-- The wallet at concrete inputs: a funded address spends one output, with change.
use symbiont_wallet.Base.{
  ℕ, ◌%◌, ◌≡◌, ◌≢◌, refl, true, false, none, some, [], ◌∷◌, length, replicate, Result, ok, err,
  arith,
}
use symbiont_wallet.Base.Bytes.{Bytes, bytes_eq, bytes_lt, codes}
use symbiont_wallet.Base.Int64.{pos}
use symbiont_wallet.Keystore.Types.{AddressState, AddressRecord, fresh, funded, spent}
use symbiont_wallet.Keystore.Store.{Db}
use symbiont_wallet.Keystore.SortedList.{sorted_list_bolt}
use symbiont_wallet.Address.Checksum.{
  xor_gens, polymod_step, polymod_from, polymod, hrp_expand, verify_checksum,
}
use symbiont_wallet.Address.Codec.{
  index_from, charset_rev, is_printable, from_chars, split_last, decode_parts, decode_generic,
}
use symbiont_wallet.Address.Regroup.{regroup}
use symbiont_wallet.Address.Format.{known_hrp, decode_payload, decode, to_hash}
use symbiont_wallet.Base.{is_ok}
use symbiont_wallet.Base.Hex.{hex_encode, hex_digit}
use symbiont_wallet.Base.Words.{put_le, le_value}
use symbiont_wallet.Base.Int64.{add64, sub64, mul64, div64, wrap64}
use symbiont_wallet.Keystore.Bolt.{lookup, insert}
use symbiont_wallet.Keystore.Transaction.{◌>>=◌, pure, fail, fail_when, update}
use symbiont_wallet.Keystore.Store.{find_address, find_record, put_record}
use symbiont_wallet.Keystore.Pending.{
  is_incomplete_pending, matches_transition, store_pending, put_pending_broadcast,
  put_pending_for_transition,
}
use symbiont_wallet.Keystore.Lifecycle.{find_change, reserve_change, mark_spend_pending}
use symbiont_wallet.Keystore.Queries.{get_record, decrypt_seed}
use symbiont_wallet.TxBuilder.Compact.{write_compact, compact_size_len, read_fixed, read_compact}
use symbiont_wallet.TxBuilder.Size.{
  add_outputs, witness_per_input, p2qpk_virtual_size, validate_standard_transaction,
}
use symbiont_wallet.TxBuilder.Serialize.{
  write_le32, write_le64, write_input, write_output, write_witness, write_body, write_bip144,
  check_witnesses, check_amounts, serialize_bip144,
}
use symbiont_wallet.TxBuilder.TxId.{
  skip, skip_each, skip_var, skip_input, skip_output, skip_witness, read_count, display_hash,
  skip_body, tx_id_from_bip144, p2qpk_tx_id,
}
use symbiont_wallet.Wallet.Types.{Crypto, SpendParams, Details, Error}
use symbiont_wallet.Wallet.Sighash.{p2qpk_script_pub_key, compute_p2qpk_sighash, sighashes_from}
use symbiont_wallet.Wallet.Validate.{
  recovery_outpoints_from, seen_prevout, check_spent, check_outputs, count_matches, check_source,
  check_recovery_outpoints, check_change, validate,
}
use symbiont_wallet.Wallet.Signing.{
  total_of, choose_metadata, Signed, sign_each, sign_all, serialize_checked, prepare, finalize,
  sign_p2qpk_inputs,
}
use symbiont_wallet.Base.Decimal.{decimal, decimal_ℤ, decimal_loop}
use symbiont_wallet.Base.Keys.{has_key}
use symbiont_wallet.Keystore.Types.{RecoveryOutpoint}
use symbiont_wallet.Keystore.Outpoints.{
  recovery_outpoint_key, recovery_outpoint_set, all_authorized, recovery_outpoint_subset,
  remaining_outpoints,
}
use symbiont_wallet.Keystore.Recovery.{mark_recovery_pending}
use symbiont_wallet.Wallet.Types.{from_not_funded, txid_mismatch}
use symbiont_wallet.Wallet.Validate.{unique_keys, all_in, wallet_recovery_outpoint_subset}
use symbiont_wallet.Wallet.Prepared.{serialize_checked-no-mismatch}
use symbiont_wallet.Wallet.Outcome.{
  IsSpent, IsRecovered, sign_p2qpk_inputs_ok, sign_recoverable_inputs_ok,
}
use symbiont_wallet.Wallet.Failure.{sign_p2qpk_inputs_err}
use symbiont_wallet.Wallet.Money.{IsBalanced, sign_p2qpk_inputs-IsBalanced}

abbrev toy_crypto : Crypto
toy_crypto = record {
  sha256 = λ b. replicate 32 (length b % 256);
  convert_bits = regroup;
  gcm_open = λ nonce ct. some (replicate 64 6);
  oqs_sign = λ secret hash. some (replicate 17088 3);
}

abbrev from_address : Bytes
from_address = codes "bq1zpyysjzgfpyysjzgfpyysjzgfpyysjzgfpyysjzgfpyysjzgfpyyshhrpud"

abbrev change_address : Bytes
change_address = codes "bq1zpqyqszqgpqyqszqgpqyqszqgpqyqszqgpqyqszqgpqyqszqgpqyqj96m20"

abbrev address_record : ℕ → Bytes → AddressState → AddressRecord
address_record i addr state = record {
  index = i;
  address = addr;
  public_key = replicate 32 i;
  enc_seed_blob = replicate 40 i;
  state = state;
  has_recoverable_balance = false;
  recoverable_outpoints = [];
  recovery_pending_outpoints = [];
  recovery_spend_txid = [];
  reserved = false;
  spend_txid = [];
}

keys_ordered : bytes_lt (0 ∷ []) (1 ∷ []) ≡ true
unfolding bytes_lt
keys_ordered = refl

abbrev funded_db : Db sorted_list_bolt
funded_db = record {
  addresses = (
    (0 ∷ [], address_record 0 from_address funded)
        ∷ (1 ∷ [], address_record 1 change_address fresh)
        ∷ [],
    ((keys_ordered, tt), (tt, tt)),
  );
  meta = ([], tt);
  transactions = ([], tt);
  pending_broadcasts = ([], tt);
}

abbrev spend : SpendParams
spend = record {
  n_version = 2;
  n_lock_time = 0;
  inputs = record { txid_le = replicate 32 7; vout = 1; n_sequence = 0xffff_ffff } ∷ [];
  spent_utxos = record { amount = pos 100000; script = 0x52 ∷ 0x20 ∷ replicate 32 9 } ∷ [];
  outputs =
      record { amount = pos 5000; script = 0x52 ∷ 0x20 ∷ replicate 32 1 }
      ∷ record { amount = pos 50000; script = 0x52 ∷ 0x20 ∷ replicate 32 8 }
      ∷ [];
  input_index = 0;
  from_addr = from_address;
  change_addr = change_address;
}

abbrev spend_details : Details
spend_details = record {
  destination = codes "bq1z";
  destination_type = codes "P2QPK";
  amount_sats = pos 5000;
  fee_sats = pos 45000;
}

abbrev spending : Result Error Signed × Db sorted_list_bolt
spending =
    sign_p2qpk_inputs toy_crypto sorted_list_bolt false spend (some spend_details) 1 funded_db

abbrev signed_of : Result Error Signed → Signed
signed_of (ok s) = s
signed_of (err e) = record {
  pub_key = [];
  signatures = [];
  raw = [];
  txid = [];
  pending = record {
    txid = [];
    raw_hex = [];
    kind = [];
    source_address = [];
    destination = [];
    destination_type = [];
    amount_sats = pos 0;
    fee_sats = pos 0;
    signed_at = 0;
  };
}

succeeds :
    (x : Result Error Signed × Db sorted_list_bolt)
    → is_ok (x.0) ≡ true
    → x ≡ (ok (signed_of (x.0)), x.1)
succeeds (ok s, db) h = refl
succeeds (err e, db) h = absurd (ground arith)

spending_succeeds : is_ok (spending.0) ≡ true
unfolding sign_p2qpk_inputs validate check_source check_recovery_outpoints check_spent check_outputs
    check_change count_matches seen_prevout recovery_outpoints_from get_record find_address
    p2qpk_script_pub_key to_hash decode decode_payload known_hrp decode_generic split_last
    decode_parts is_printable from_chars charset_rev index_from verify_checksum hrp_expand polymod
    polymod_from polymod_step xor_gens bytes_eq bytes_lt validate_standard_transaction
    p2qpk_virtual_size add_outputs witness_per_input compact_size_len add64 sub64 mul64 div64 wrap64
    prepare sighashes_from compute_p2qpk_sighash sign_all sign_each decrypt_seed serialize_checked
    serialize_bip144 check_witnesses check_amounts write_bip144 write_body write_input write_output
    write_witness write_compact write_le32 write_le64 put_le tx_id_from_bip144 skip_body read_count
    skip_each skip_input skip_output skip_witness skip_var skip read_compact read_fixed le_value
    display_hash hex_encode hex_digit p2qpk_tx_id total_of choose_metadata finalize
    mark_spend_pending find_record put_record find_change reserve_change put_pending_for_transition
    put_pending_broadcast store_pending is_incomplete_pending matches_transition lookup insert ◌>>=◌
    pure fail fail_when update
spending_succeeds = refl

sign_p2qpk_inputs_ok_example :
    IsSpent toy_crypto sorted_list_bolt spend (signed_of (spending.0)) funded_db (spending.1)
sign_p2qpk_inputs_ok_example =
    sign_p2qpk_inputs_ok toy_crypto sorted_list_bolt spend (some spend_details) 1 funded_db
      (spending.1) (signed_of (spending.0)) (succeeds spending spending_succeeds)

sign_p2qpk_inputs-IsBalanced_example : IsBalanced spend ((signed_of (spending.0)).pending)
sign_p2qpk_inputs-IsBalanced_example =
    sign_p2qpk_inputs-IsBalanced toy_crypto sorted_list_bolt false spend spend_details 1 funded_db
      (spending.1) (signed_of (spending.0)) (omega arith, tt) (omega arith, (omega arith, tt))
      (succeeds spending spending_succeeds)

-- The same spend from an address that has no funds.
abbrev unfunded_db : Db sorted_list_bolt
unfunded_db = record funded_db {
  addresses = ((0 ∷ [], address_record 0 from_address fresh) ∷ [], (tt, tt));
}

refused :
    sign_p2qpk_inputs toy_crypto sorted_list_bolt false spend none 1 unfunded_db
    ≡ (err from_not_funded, unfunded_db)
unfolding sign_p2qpk_inputs validate check_source get_record find_address bytes_eq
refused = refl

sign_p2qpk_inputs_err_example : unfunded_db ≡ unfunded_db
sign_p2qpk_inputs_err_example =
    sign_p2qpk_inputs_err toy_crypto sorted_list_bolt false spend none 1 unfunded_db unfunded_db
      from_not_funded refused

serialize_checked-no-mismatch_example :
    serialize_checked toy_crypto spend (replicate 32 4) (replicate 17088 3 ∷ []) ≢ err txid_mismatch
serialize_checked-no-mismatch_example =
    serialize_checked-no-mismatch toy_crypto spend (replicate 32 4) (replicate 17088 3 ∷ [])
      ((refl, tt), (omega arith, (omega arith, tt)), omega arith, omega arith)

-- The same spend as a recovery, from a spent address that the output came back to.
abbrev returned : RecoveryOutpoint
returned = record { txid = hex_encode (replicate 32 7); vout = 1; amount_sats = pos 100000 }

abbrev spent_db : Db sorted_list_bolt
spent_db = record funded_db {
  addresses = (
    (
      0 ∷ [],
      record (address_record 0 from_address spent) {
        has_recoverable_balance = true;
        recoverable_outpoints = returned ∷ [];
      },
    )
        ∷ (1 ∷ [], address_record 1 change_address fresh)
        ∷ [],
    ((keys_ordered, tt), (tt, tt)),
  );
}

abbrev recovery : Result Error Signed × Db sorted_list_bolt
recovery = sign_p2qpk_inputs toy_crypto sorted_list_bolt true spend (some spend_details) 1 spent_db

recovery_succeeds : is_ok (recovery.0) ≡ true
unfolding sign_p2qpk_inputs validate check_source check_recovery_outpoints check_spent check_outputs
    check_change count_matches seen_prevout recovery_outpoints_from get_record find_address
    p2qpk_script_pub_key to_hash decode decode_payload known_hrp decode_generic split_last
    decode_parts is_printable from_chars charset_rev index_from verify_checksum hrp_expand polymod
    polymod_from polymod_step xor_gens bytes_eq bytes_lt validate_standard_transaction
    p2qpk_virtual_size add_outputs witness_per_input compact_size_len add64 sub64 mul64 div64 wrap64
    prepare sighashes_from compute_p2qpk_sighash sign_all sign_each decrypt_seed serialize_checked
    serialize_bip144 check_witnesses check_amounts write_bip144 write_body write_input write_output
    write_witness write_compact write_le32 write_le64 put_le tx_id_from_bip144 skip_body read_count
    skip_each skip_input skip_output skip_witness skip_var skip read_compact read_fixed le_value
    display_hash hex_encode hex_digit p2qpk_tx_id total_of choose_metadata finalize
    mark_spend_pending find_record put_record find_change reserve_change put_pending_for_transition
    put_pending_broadcast store_pending is_incomplete_pending matches_transition lookup insert ◌>>=◌
    pure fail fail_when update mark_recovery_pending recovery_outpoint_subset all_authorized
    recovery_outpoint_set recovery_outpoint_key has_key remaining_outpoints
    wallet_recovery_outpoint_subset unique_keys all_in decimal decimal_ℤ decimal_loop
recovery_succeeds = refl

sign_recoverable_inputs_ok_example :
    IsRecovered toy_crypto sorted_list_bolt spend (signed_of (recovery.0)) spent_db (recovery.1)
sign_recoverable_inputs_ok_example =
    sign_recoverable_inputs_ok toy_crypto sorted_list_bolt spend (some spend_details) 1 spent_db
      (recovery.1) (signed_of (recovery.0)) (succeeds recovery recovery_succeeds)
