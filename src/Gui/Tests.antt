-- ===== src/Gui/Tests.antt =====
-- The windows' computations at concrete inputs: two outputs of one address, a send that is tested and
-- broadcast, and a pending spend that a node has confirmed.
use symbiont_wallet.Base.{true}
use symbiont_wallet.Base.{ℕ, ◌≡◌, refl, false, List, [], ◌∷◌, Result, ok, err, arith}
use mathlib.Core.List.{Perm}
use symbiont_wallet.Base.Bytes.{Bytes, bytes_eq, bytes_lt, codes}
use symbiont_wallet.Base.Decimal.{decimal, decimal_loop}
use symbiont_wallet.Base.Hex.{hex_decode, hex_value}
use symbiont_wallet.Base.Int64.{pos, add64, sub64, mul64, div64, wrap64}
use symbiont_wallet.Base.Keys.{has_key}
use symbiont_wallet.Base.ParseInt.{digits_from, parse_digits, parse_int, split_dot}
use symbiont_wallet.Amounts.Convert.{parse_part, parse_qoge_decimal}
use symbiont_wallet.Keystore.Queries.{sort_by, insert_by}
use symbiont_wallet.TxBuilder.Types.{CoinSelection, FeePlan}
use symbiont_wallet.TxBuilder.Compact.{compact_size_len}
use symbiont_wallet.TxBuilder.Size.{witness_per_input, add_outputs, p2qpk_virtual_size}
use symbiont_wallet.TxBuilder.Fees.{fee_for_rate, plan_fee}
use symbiont_wallet.TxBuilder.Coins.{
  coin_key, coin_less, insert_coin, sort_coins, check_coins, ordered_coins, unchosen, add_amounts,
  build_selection, try_prefixes, try_largest, select_for_amount,
}
use symbiont_wallet.TxBuilder.TxId.{tx_id_le_from_hex}
use symbiont_wallet.Scan.Types.{ScanUnspent, float_qoge_to_satoshis}
use symbiont_wallet.Gui.Inputs.{
  PreparedInputs, Error, nothing_prepared, outpoint_key, unspent_before, decode_script,
  positive_sats, prepare_each, prepare_spend_inputs, spend_candidates, selected_scan_unspents,
  select_spend_inputs_for_amount,
}
use symbiont_wallet.Amounts.Convert.{parse_natural, add_fraction, qoge_to_satoshis}
use symbiont_wallet.Base.ParseInt.{trim_space, trim_left}
use symbiont_wallet.Gui.Sending.{
  SendAmounts, planned_amounts, prepare_send_amounts, AmountControl, set_enabled,
}
use symbiont_wallet.Gui.Sending as Sending
use symbiont_wallet.Gui.Amounts.{
  IsDivided, prepare_send_amounts_ok, calculate_each, manual_amount_restored,
}
use symbiont_wallet.Gui.Prepared.{IsPrepared, prepare_spend_inputs_ok}
use symbiont_wallet.Gui.Selected.{IsFunded, select_spend_inputs_for_amount_ok}

abbrev same_text : Bytes → Bytes
same_text text = text

abbrev unspent : Bytes → ℕ → Bytes → ScanUnspent Bytes
unspent txid vout amount = record {
  txid = txid;
  vout = vout;
  script_pub_key = codes "5220aa";
  desc = [];
  amount = amount;
  height = pos 100;
}

abbrev txid_of_ones : Bytes
txid_of_ones = codes "1111111111111111111111111111111111111111111111111111111111111111"

abbrev two_unspents : List (ScanUnspent Bytes)
two_unspents =
    unspent txid_of_ones 1 (codes "1.00000000") ∷ unspent txid_of_ones 0 (codes "0.00000003") ∷ []

abbrev prepared_of : Result Error PreparedInputs → PreparedInputs
prepared_of (ok p) = p
prepared_of (err e) = nothing_prepared (pos 0)

abbrev two_prepared : PreparedInputs
two_prepared = prepared_of (prepare_spend_inputs same_text two_unspents)

prepared : prepare_spend_inputs same_text two_unspents ≡ ok two_prepared
unfolding prepare_spend_inputs prepare_each sort_by insert_by unspent_before bytes_eq bytes_lt
    has_key outpoint_key decimal decimal_loop tx_id_le_from_hex hex_decode hex_value positive_sats
    float_qoge_to_satoshis parse_qoge_decimal split_dot parse_part parse_int parse_digits
    digits_from add64 sub64 mul64 wrap64 decode_script
prepared = refl

prepare_spend_inputs_ok_example :
    (ordered : List (ScanUnspent Bytes)) × Perm ordered two_unspents
    × IsPrepared same_text ordered 0 two_prepared
prepare_spend_inputs_ok_example =
    prepare_spend_inputs_ok same_text two_unspents two_prepared prepared

abbrev own_script : Bytes
own_script = codes "own"

abbrev Choice : Type 0
Choice = PreparedInputs × CoinSelection × FeePlan

abbrev no_choice : Choice
no_choice = (
  nothing_prepared (pos 0),
  record { selected = []; unselected = []; selected_total = pos 0; unselected_total = pos 0 },
  record { fee_sats = pos 0; change_sats = pos 0; vsize = pos 0; include_change = false },
)

abbrev choice_of : Result Error Choice → Choice
choice_of (ok c) = c
choice_of (err e) = no_choice

abbrev chosen : Choice
chosen =
    choice_of
      (select_spend_inputs_for_amount same_text two_unspents (pos 5000) (pos 10000) own_script)

selected :
    select_spend_inputs_for_amount same_text two_unspents (pos 5000) (pos 10000) own_script
    ≡ ok (chosen.0, chosen.1, chosen.2)
unfolding select_spend_inputs_for_amount spend_candidates selected_scan_unspents
    prepare_spend_inputs prepare_each sort_by insert_by unspent_before bytes_eq bytes_lt has_key
    outpoint_key decimal decimal_loop tx_id_le_from_hex hex_decode hex_value positive_sats
    float_qoge_to_satoshis parse_qoge_decimal split_dot parse_part parse_int parse_digits
    digits_from add64 sub64 mul64 div64 wrap64 decode_script select_for_amount try_prefixes
    try_largest build_selection add_amounts unchosen ordered_coins check_coins sort_coins
    insert_coin coin_less coin_key plan_fee p2qpk_virtual_size add_outputs witness_per_input
    fee_for_rate compact_size_len
selected = refl

select_spend_inputs_for_amount_ok_example :
    IsFunded same_text (pos 5000) (pos 10000) own_script (chosen.0) (chosen.1) (chosen.2)
select_spend_inputs_for_amount_ok_example =
    select_spend_inputs_for_amount_ok same_text two_unspents (pos 5000) (pos 10000) own_script
      (chosen.0) (chosen.1) (chosen.2) (omega arith) (omega arith) selected

abbrev no_amounts : SendAmounts
no_amounts = record {
  send_sats = pos 0;
  fee_sats = pos 0;
  vsize = pos 0;
  change_sats = pos 0;
  include_change = false;
  withdraw_all = false;
  destination_script = [];
}

abbrev amounts_of : Result Sending.Error SendAmounts → SendAmounts
amounts_of (ok a) = a
amounts_of (err e) = no_amounts

abbrev half_coin : SendAmounts
half_coin =
    amounts_of
      (prepare_send_amounts (pos 100000003) (pos 2) own_script (pos 10000) (codes "0.5") false)

prepared_half :
    prepare_send_amounts (pos 100000003) (pos 2) own_script (pos 10000) (codes "0.5") false
    ≡ ok half_coin
unfolding prepare_send_amounts planned_amounts qoge_to_satoshis trim_space trim_left split_dot
    parse_natural parse_int parse_digits digits_from add_fraction plan_fee p2qpk_virtual_size
    add_outputs witness_per_input fee_for_rate compact_size_len add64 sub64 mul64 div64 wrap64
prepared_half = refl

prepare_send_amounts_ok_example :
    IsDivided (pos 100000003) half_coin
    × (half_coin.withdraw_all ≡ false)
    × (half_coin.destination_script ≡ own_script)
    × (false ≡ false → qoge_to_satoshis (codes "0.5") ≡ ok (half_coin.send_sats))
prepare_send_amounts_ok_example =
    prepare_send_amounts_ok (pos 100000003) (pos 2) (pos 10000) own_script (codes "0.5") false
      half_coin (omega arith) (omega arith) prepared_half

abbrev typed : AmountControl
typed = record {
  entry_text = codes "1.25";
  entry_disabled = false;
  place_holder = [];
  manual_value = [];
  enabled = false;
}

manual_amount_restored_example :
    let back = set_enabled false (calculate_each (pos 5 ∷ pos 7 ∷ []) (set_enabled true typed)) in
    (back.entry_text ≡ codes "1.25") × (back.entry_disabled ≡ false) × (back.enabled ≡ false)
manual_amount_restored_example = manual_amount_restored typed (pos 5 ∷ pos 7 ∷ []) refl
