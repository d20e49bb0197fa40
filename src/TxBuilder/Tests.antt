-- ===== src/TxBuilder/Tests.antt =====
-- txbuilder.go at concrete inputs.
use symbiont_wallet.Base.{
  ℕ, zero, suc, ◌+◌, ◌*◌, ◌/◌, ◌≡◌, refl, true, List, [], ◌∷◌, ◌++◌, length, replicate, All, ok,
  arith, ltb,
}
use symbiont_wallet.Base.Bytes.{Bytes}
use symbiont_wallet.Base.Words.{put_le}
use symbiont_wallet.Base.Int64.{pos}
use symbiont_wallet.TxBuilder.Types.{SignedTx}
use mathlib.Core.List.{Perm}
use symbiont_wallet.Base.Bytes.{codes, bytes_eq, bytes_lt}
use symbiont_wallet.Base.Decimal.{decimal, decimal_loop}
use symbiont_wallet.Base.Keys.{has_key}
use symbiont_wallet.Base.Words.{IsByte}
use symbiont_wallet.Base.{ltb→lt}
use symbiont_wallet.Base.Int64.{add64, sub64, mul64, div64, wrap64}
use symbiont_wallet.TxBuilder.Types.{FeePlan, WithdrawAllPlan, Coin, CoinSelection}
use symbiont_wallet.TxBuilder.Size.{p2qpk_virtual_size, add_outputs, witness_per_input}
use symbiont_wallet.TxBuilder.Weight.{stripped_bytes, p2qpk_virtual_size-serialize_bip144}
use symbiont_wallet.TxBuilder.Fees.{fee_for_rate, plan_fee, plan_withdraw_all, calc_change}
use symbiont_wallet.TxBuilder.Rate.{fee_for_rate_exact}
use symbiont_wallet.TxBuilder.Plan.{IsPlanned, plan_fee_ok}
use symbiont_wallet.TxBuilder.Withdraw.{IsWithdrawn, plan_withdraw_all_ok, calc_change_exact}
use symbiont_wallet.TxBuilder.Coins.{
  coin_key, check_coins, coin_less, insert_coin, sort_coins, ordered_coins, add_amounts, unchosen,
  build_selection, try_prefixes, try_largest, select_for_amount, select_maximum,
}
use symbiont_wallet.TxBuilder.Ordering.{IsOrdered, IsDistinct, IsPositive, ordered_coins_ok}
use symbiont_wallet.TxBuilder.Chosen.{IsSelection, select_for_amount_ok, select_maximum_ok}
use symbiont_wallet.TxBuilder.Compact.{compact_size_len}
use symbiont_wallet.TxBuilder.Compact.{write_compact, read_compact, read_compact-write_compact}
use symbiont_wallet.TxBuilder.Serialize.{
  write_le32, write_le64, write_input, write_output, write_witness, write_body, write_bip144,
  check_witnesses, check_amounts, serialize_bip144,
}
use symbiont_wallet.TxBuilder.TxId.{
  tx_id_from_bip144, p2qpk_tx_id, display_hash, tx_id_le_from_hex, tx_id_le_from_hex-display_hash,
}
use symbiont_wallet.TxBuilder.RoundTrip.{tx_id_from_bip144-serialize_bip144}

abbrev one_input : SignedTx
one_input = record {
  n_version = 2;
  n_lock_time = 0;
  inputs = record { txid_le = replicate 32 7; vout = 1; n_sequence = 0xffff_ffff } ∷ [];
  outputs = record { amount = pos 5000; script = 0x52 ∷ 0x20 ∷ replicate 32 9 } ∷ [];
  witnesses = record { sig = replicate 17088 3; pub_key = replicate 32 4 } ∷ [];
}

one_input-serialized : serialize_bip144 one_input ≡ ok (write_bip144 one_input)
unfolding serialize_bip144 check_witnesses check_amounts
one_input-serialized = refl

tx_id_from_bip144-serialize_bip144_example :
    tx_id_from_bip144 (λ b. b) (write_bip144 one_input)
    ≡ ok (p2qpk_tx_id (λ b. b) 2 (one_input.inputs) (one_input.outputs) 0)
tx_id_from_bip144-serialize_bip144_example =
    tx_id_from_bip144-serialize_bip144 (λ b. b) one_input (write_bip144 one_input)
      ((refl, tt), (omega arith, tt), omega arith, omega arith) one_input-serialized

one_input_small : ltb (length (write_bip144 one_input)) 1152921504606846976 ≡ true
unfolding write_bip144 write_body write_le32 write_le64 write_input write_output write_witness
    write_compact put_le
one_input_small = refl

p2qpk_virtual_size-serialize_bip144_example :
    p2qpk_virtual_size (pos 1) (one_input.outputs)
    ≡ ok (pos ((3 * length (stripped_bytes one_input) + length (write_bip144 one_input) + 3) / 4))
p2qpk_virtual_size-serialize_bip144_example =
    p2qpk_virtual_size-serialize_bip144 one_input (write_bip144 one_input)
      ((refl, tt), (omega arith, tt), omega arith, omega arith) one_input-serialized
      (ltb→lt (length (write_bip144 one_input)) 1152921504606846976 one_input_small)

replicate-IsByte : (n : ℕ) → All IsByte (replicate n 5)
replicate-IsByte zero = tt
replicate-IsByte (suc n) = (omega arith, replicate-IsByte n)

abbrev own_script : Bytes
own_script = 0x52 ∷ 0x20 ∷ replicate 32 9

fee_for_rate_exact_example : fee_for_rate (pos 10000) (pos 4376) ≡ ok (pos 43760)
fee_for_rate_exact_example =
    fee_for_rate_exact 10000 4376 (omega arith) (omega arith) (omega arith) (omega arith)

abbrev with_change : FeePlan
with_change = record {
  fee_sats = pos 44190;
  change_sats = pos 99950810;
  vsize = pos 4419;
  include_change = true;
}

planned : plan_fee (pos 100000000) (pos 5000) (pos 10000) (pos 1) own_script ≡ ok with_change
unfolding plan_fee p2qpk_virtual_size add_outputs witness_per_input fee_for_rate compact_size_len
    add64 sub64 mul64 div64 wrap64
planned = refl

plan_fee_ok_example :
    IsPlanned (pos 100000000) (pos 5000) (pos 10000) (pos 1) own_script with_change
plan_fee_ok_example =
    plan_fee_ok (pos 100000000) (pos 5000) (pos 10000) (pos 1) own_script with_change (omega arith)
      (omega arith) (omega arith) planned

abbrev all_of_it : WithdrawAllPlan
all_of_it = record { send_sats = pos 99956240; fee_sats = pos 43760; vsize = pos 4376 }

withdrawn : plan_withdraw_all (pos 100000000) (pos 10000) (pos 1) own_script ≡ ok all_of_it
unfolding plan_withdraw_all p2qpk_virtual_size add_outputs witness_per_input fee_for_rate
    compact_size_len add64 sub64 mul64 div64 wrap64
withdrawn = refl

plan_withdraw_all_ok_example : IsWithdrawn (pos 100000000) (pos 10000) (pos 1) own_script all_of_it
plan_withdraw_all_ok_example =
    plan_withdraw_all_ok (pos 100000000) (pos 10000) (pos 1) own_script all_of_it (omega arith)
      (omega arith) withdrawn

calc_change_exact_example : calc_change (pos 100) (pos 60) (pos 15) ≡ ok (pos 25)
calc_change_exact_example =
    calc_change_exact 100 60 15 (omega arith) (omega arith) (omega arith) (omega arith)

-- A large coin in front of a small one.
abbrev large_coin : Coin
large_coin = record { id = codes "aa"; vout = 0; amount_sats = pos 100000000 }

abbrev small_coin : Coin
small_coin = record { id = codes "bb"; vout = 1; amount_sats = pos 3 }

abbrev two_coins : List Coin
two_coins = large_coin ∷ small_coin ∷ []

abbrev both_selected : CoinSelection
both_selected = record {
  selected = small_coin ∷ large_coin ∷ [];
  unselected = [];
  selected_total = pos 100000003;
  unselected_total = pos 0;
}

abbrev plan_of_both : FeePlan
plan_of_both = record {
  fee_sats = pos 87410;
  change_sats = pos 99907593;
  vsize = pos 8741;
  include_change = true;
}

ordered : ordered_coins two_coins ≡ ok (small_coin ∷ large_coin ∷ [])
unfolding ordered_coins check_coins sort_coins insert_coin coin_less coin_key has_key decimal
    decimal_loop bytes_eq bytes_lt
ordered = refl

ordered_coins_ok_example :
    Perm (small_coin ∷ large_coin ∷ []) two_coins
    × IsOrdered (small_coin ∷ large_coin ∷ [])
    × IsDistinct (small_coin ∷ large_coin ∷ [])
    × All IsPositive (small_coin ∷ large_coin ∷ [])
ordered_coins_ok_example = ordered_coins_ok two_coins (small_coin ∷ large_coin ∷ []) ordered

chosen :
    select_for_amount two_coins (pos 5000) (pos 10000) own_script ≡ ok (both_selected, plan_of_both)
unfolding select_for_amount try_prefixes try_largest build_selection add_amounts unchosen
    ordered_coins check_coins sort_coins insert_coin coin_less coin_key has_key decimal decimal_loop
    bytes_eq bytes_lt plan_fee p2qpk_virtual_size add_outputs witness_per_input fee_for_rate
    compact_size_len add64 sub64 mul64 div64 wrap64
chosen = refl

select_for_amount_ok_example :
    IsSelection two_coins both_selected
    × (plan_fee (pos 100000003) (pos 5000) (pos 10000) (pos 2) own_script ≡ ok plan_of_both)
select_for_amount_ok_example =
    select_for_amount_ok two_coins (pos 5000) (pos 10000) own_script both_selected plan_of_both
      (omega arith, (omega arith, tt)) chosen

abbrev maximum_of_both : WithdrawAllPlan
maximum_of_both = record { send_sats = pos 99913023; fee_sats = pos 86980; vsize = pos 8698 }

maximum : select_maximum two_coins (pos 10000) own_script ≡ ok (both_selected, maximum_of_both)
unfolding select_maximum build_selection add_amounts unchosen ordered_coins check_coins sort_coins
    insert_coin coin_less coin_key has_key decimal decimal_loop bytes_eq bytes_lt plan_withdraw_all
    p2qpk_virtual_size add_outputs witness_per_input fee_for_rate compact_size_len add64 sub64 mul64
    div64 wrap64
maximum = refl

select_maximum_ok_example :
    IsSelection two_coins both_selected
    × (plan_withdraw_all (pos 100000003) (pos 10000) (pos 2) own_script ≡ ok maximum_of_both)
select_maximum_ok_example =
    select_maximum_ok two_coins (pos 10000) own_script both_selected maximum_of_both
      (omega arith, (omega arith, tt)) maximum

read_compact-write_compact_example :
    read_compact (write_compact 70000 ++ (1 ∷ [])) ≡ ok (70000, 1 ∷ [])
read_compact-write_compact_example = read_compact-write_compact 70000 (1 ∷ []) (omega arith)

tx_id_le_from_hex-display_hash_example :
    tx_id_le_from_hex (display_hash (λ b. replicate 32 5) (1 ∷ [])) ≡ ok (replicate 32 5)
tx_id_le_from_hex-display_hash_example =
    tx_id_le_from_hex-display_hash (λ b. replicate 32 5) (1 ∷ []) refl (replicate-IsByte 32)
