-- ===== src/Wallet/Validate.antt =====
-- wallet.go: what `signP2QPKInputs` checks before it signs.
use symbiont_wallet.Base.{
  ℕ, suc, Bool, true, false, not, ◌&&◌, ◌||◌, Option, none, some, List, [], ◌∷◌, length, reverse,
  leb, ltb, ◌==◌, Result, ok, err, fail_if, ◌>>◌, ◌>>=◌, if◌then◌else◌,
}
use symbiont_wallet.Base.Bytes.{Bytes, bytes_eq}
use symbiont_wallet.Base.Hex.{hex_encode}
use symbiont_wallet.Base.Keys.{has_key}
use symbiont_wallet.Base.Int64.{ℤ, pos, leb_ℤ, ltb_ℤ}
use symbiont_wallet.Keystore.Types.{AddressRecord, RecoveryOutpoint, fresh, funded, spent, state_eq}
use symbiont_wallet.Keystore.Bolt.{Bolt}
use symbiont_wallet.Keystore.Store.{Db}
use symbiont_wallet.Keystore.Lifecycle.{has_outpoints}
use symbiont_wallet.Keystore.Outpoints.{recovery_outpoint_key}
use symbiont_wallet.Keystore.Queries.{get_record}
use symbiont_wallet.TxBuilder.Types.{TxInput, TxOutput}
use symbiont_wallet.TxBuilder.Size.{validate_standard_transaction}
use symbiont_wallet.Wallet.Types.{
  Crypto, SpendParams, Error, keystore_error, builder_error, recovery_not_available,
  from_not_funded, recovery_outpoints_changed, no_inputs, inputs_mismatch, index_out_of_range,
  duplicate_prevout, amount_not_positive, script_mismatch, no_outputs, negative_output,
  change_not_fresh, change_reserved, change_output_missing, change_output_ambiguous,
  no_change_outputs,
}
use symbiont_wallet.Wallet.Sighash.{p2qpk_script_pub_key}

-- The amount of the spent output at the same place, 0 where there is none.
abbrev pub first_amount : List TxOutput → ℤ
first_amount [] = pos 0
first_amount (u ∷ us) = u.amount

abbrev pub rest_of : List TxOutput → List TxOutput
rest_of [] = []
rest_of (u ∷ us) = us

-- `recoveryOutpointsFromParams`.
unfoldable pub recovery_outpoints_from : List TxInput → List TxOutput → List RecoveryOutpoint
recovery_outpoints_from [] us = []
recovery_outpoints_from (i ∷ is) us =
    record { txid = hex_encode (reverse (i.txid_le)); vout = i.vout; amount_sats = first_amount us }
    ∷ recovery_outpoints_from is (rest_of us)

-- The first loop of `walletRecoveryOutpointSubset`: the keys, unless one repeats.
unfoldable pub unique_keys : List Bytes → List RecoveryOutpoint → Option (List Bytes)
unique_keys set [] = some set
unique_keys set (o ∷ os) =
    let key = recovery_outpoint_key o in
    let rest = unique_keys (key ∷ set) os in if has_key key set then none else rest

-- Its second loop.
unfoldable pub all_in : List Bytes → List Bytes → List RecoveryOutpoint → Bool
all_in set seen [] = true
all_in set seen (o ∷ os) =
    let key = recovery_outpoint_key o in
    let rest = all_in set (key ∷ seen) os in
    if has_key key seen then false else if has_key key set then rest else false

-- `walletRecoveryOutpointSubset`.
unfoldable pub wallet_recovery_outpoint_subset :
    List RecoveryOutpoint → List RecoveryOutpoint → Bool
unfolding unique_keys all_in
wallet_recovery_outpoint_subset authorized submitted =
    if length submitted == 0
    then false
    else elim (unique_keys [] authorized) [ none ↦ false | some set ↦ all_in set [] submitted ]

-- `sameWalletRecoveryOutpoints`.
unfoldable pub same_wallet_recovery_outpoints : List RecoveryOutpoint → List RecoveryOutpoint → Bool
unfolding wallet_recovery_outpoint_subset
same_wallet_recovery_outpoints a b = length a == length b && wallet_recovery_outpoint_subset a b

abbrev pub same_prevout : TxInput → TxInput → Bool
same_prevout a b = bytes_eq (a.txid_le) (b.txid_le) && a.vout == b.vout

unfoldable pub seen_prevout : TxInput → List TxInput → Bool
seen_prevout i [] = false
seen_prevout i (j ∷ js) = same_prevout i j || seen_prevout i js

-- The loop over `SpentUTXOs`, each with the input at its place.
unfoldable pub check_spent :
    Bytes → List TxInput → List TxInput → List TxOutput → Result Error (Unit {0})
unfolding seen_prevout
check_spent script seen inputs [] = ok tt
check_spent script seen [] (u ∷ us) = err index_out_of_range
check_spent script seen (i ∷ is) (u ∷ us) =
    fail_if (seen_prevout i seen) duplicate_prevout
    >> fail_if (leb_ℤ (u.amount) (pos 0)) amount_not_positive
    >> fail_if (not (bytes_eq (u.script) script)) script_mismatch
    >> check_spent script (i ∷ seen) is us

unfoldable pub check_outputs : List TxOutput → Result Error (Unit {0})
check_outputs [] = ok tt
check_outputs (o ∷ os) = fail_if (ltb_ℤ (o.amount) (pos 0)) negative_output >> check_outputs os

-- `changeMatches`.
unfoldable pub count_matches : Bytes → List TxOutput → ℕ
count_matches script [] = 0
count_matches script (o ∷ os) =
    let rest = count_matches script os in if bytes_eq (o.script) script then suc rest else rest

-- The test of the source's record.
unfoldable pub check_source : Bool → AddressRecord → Result Error (Unit {0})
check_source true rec =
    fail_if
      (not (state_eq (rec.state) spent)
        || not (rec.has_recoverable_balance)
        || has_outpoints (rec.recovery_pending_outpoints))
      recovery_not_available
check_source false rec = fail_if (not (state_eq (rec.state) funded)) from_not_funded

unfoldable pub check_recovery_outpoints :
    Bool → AddressRecord → List RecoveryOutpoint → Result Error (Unit {0})
check_recovery_outpoints recovery rec outpoints =
    fail_if
      (recovery && not (wallet_recovery_outpoint_subset (rec.recoverable_outpoints) outpoints))
      recovery_outpoints_changed

module _ (crypto : Crypto) (bolt : Bolt) where
  -- The lookup of a record, with the error wrapped.
  abbrev pub record_of : Bytes → Db bolt → Result Error AddressRecord
  record_of addr db = elim (get_record bolt addr db) [
    | ok rec ↦ ok rec
    | err e ↦ err (keystore_error e)
  ]

  -- The change routing.
  unfoldable pub check_change : Bytes → List TxOutput → Db bolt → Result Error (Unit {0})
  unfolding count_matches
  check_change [] outputs db = fail_if (not (length outputs == 1)) no_change_outputs
  check_change (c ∷ cs) outputs db = record_of (c ∷ cs) db >>= λ rec.
      fail_if (not (state_eq (rec.state) fresh)) change_not_fresh
      >> fail_if (rec.reserved) change_reserved
      >> (p2qpk_script_pub_key crypto (c ∷ cs) >>= λ script.
          fail_if (count_matches script outputs == 0) change_output_missing
          >> fail_if (ltb 1 (count_matches script outputs)) change_output_ambiguous)

  abbrev pub check_size : SpendParams → Result Error (Unit {0})
  check_size p = elim (validate_standard_transaction (pos (length (p.inputs))) (p.outputs)) [
    | ok vsize ↦ ok tt
    | err e ↦ err (builder_error e)
  ]

  -- All the checks, in the order of `signP2QPKInputs`; the result is the source's record.
  unfoldable pub validate : Bool → SpendParams → Db bolt → Result Error AddressRecord
  unfolding check_source check_recovery_outpoints check_spent check_outputs check_change
  validate recovery p db = record_of (p.from_addr) db >>= λ rec.
      check_source recovery rec
      >> fail_if (length (p.inputs) == 0) no_inputs
      >> fail_if (not (length (p.inputs) == length (p.spent_utxos))) inputs_mismatch
      >> fail_if (leb (length (p.inputs)) (p.input_index)) index_out_of_range
      >> check_recovery_outpoints recovery rec (recovery_outpoints_from (p.inputs) (p.spent_utxos))
      >> (p2qpk_script_pub_key crypto (p.from_addr) >>= λ script.
          check_spent script [] (p.inputs) (p.spent_utxos)
          >> fail_if (length (p.outputs) == 0) no_outputs
          >> check_outputs (p.outputs)
          >> check_size p
          >> check_change (p.change_addr) (p.outputs) db
          >> ok rec)
