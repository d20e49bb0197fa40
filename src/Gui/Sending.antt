-- ===== src/Gui/Sending.antt =====
-- main.go: the destination, the amounts and the amount field of a send.
use symbiont_wallet.Base.{
  Bool, true, false, not, ◌&&◌, Option, none, some, [], length, ◌==◌, Result, ok, err, fail_if,
  ◌>>◌, ◌>>=◌, if◌then◌else◌,
}
use symbiont_wallet.Base.Bytes.{Bytes, codes}
use symbiont_wallet.Base.Hex.{hex_decode}
use symbiont_wallet.Base.Int64.{ℤ, pos, leb_ℤ}
use symbiont_wallet.Base.Maps.{Map, lookup}
use symbiont_wallet.Address.Codec as A
use symbiont_wallet.Address.Format.{Convert}
use symbiont_wallet.Address.Destination.{
  DestinationType, p2qpk, Destination, CheckDecode, decode_mainnet_destination,
}
use symbiont_wallet.Amounts.Convert.{qoge_to_satoshis, format_qoge}
use symbiont_wallet.TxBuilder.Types as T
use symbiont_wallet.TxBuilder.Size.{validate_standard_size}
use symbiont_wallet.TxBuilder.Fees.{plan_fee, plan_withdraw_all}

pub data Error : Type 0 where
  no_external_address no_wallet_address not_p2qpk invalid_amount : Error
  invalid_seed backup_not_confirmed : Error
  address_error : A.Error → Error
  builder_error : T.Error → Error

abbrev is_p2qpk : DestinationType → Bool
is_p2qpk p2qpk = true
is_p2qpk _ = false

-- `resolveSendDestination`.
unfoldable pub resolve_send_destination :
    Convert → CheckDecode → Bool → Bytes → Bytes → Result Error (Bytes × Destination)
resolve_send_destination convert_bits check_decode external wallet_address external_address =
    let addr = if external then external_address else wallet_address in
    fail_if (length addr == 0) (if external then no_external_address else no_wallet_address)
    >> elim (decode_mainnet_destination convert_bits check_decode addr) [
      | err e ↦ err (address_error e)
      | ok d ↦ fail_if (not external && not (is_p2qpk (d.type_))) not_p2qpk >> ok (addr, d)
    ]

-- `resolveSendFromOption`, `none` where the second result is false.
unfoldable pub resolve_send_from_option : Bytes → Map Bytes → Option Bytes
resolve_send_from_option selected options = elim (lookup selected options) [
  | none ↦ none
  | some address ↦ if length address == 0 then none else some address
]

-- `preparedSendAmounts`.
pub record SendAmounts : Type 0 where
  pub send_sats : ℤ
  pub fee_sats : ℤ
  pub vsize : ℤ
  pub change_sats : ℤ
  pub include_change : Bool
  pub withdraw_all : Bool
  pub destination_script : Bytes

-- The branch of `prepareSendAmounts` that sends everything.
unfoldable pub withdraw_amounts : ℤ → ℤ → Bytes → ℤ → Result Error SendAmounts
withdraw_amounts total count script rate = elim (plan_withdraw_all total rate count script) [
  | err e ↦ err (builder_error e)
  | ok plan ↦ ok (record {
    send_sats = plan.send_sats;
    fee_sats = plan.fee_sats;
    vsize = plan.vsize;
    change_sats = pos 0;
    include_change = false;
    withdraw_all = true;
    destination_script = script;
  })
]

-- The branch that sends a parsed amount.
unfoldable pub planned_amounts : ℤ → ℤ → Bytes → ℤ → ℤ → Result Error SendAmounts
planned_amounts total count script rate send = elim (plan_fee total send rate count script) [
  | err e ↦ err (builder_error e)
  | ok plan ↦ ok (record {
    send_sats = send;
    fee_sats = plan.fee_sats;
    vsize = plan.vsize;
    change_sats = plan.change_sats;
    include_change = plan.include_change;
    withdraw_all = false;
    destination_script = script;
  })
]

-- `prepareSendAmounts`.
unfoldable pub prepare_send_amounts : ℤ → ℤ → Bytes → ℤ → Bytes → Bool → Result Error SendAmounts
unfolding withdraw_amounts planned_amounts
prepare_send_amounts total count script rate amount_text true =
    withdraw_amounts total count script rate
prepare_send_amounts total count script rate amount_text false =
    elim (qoge_to_satoshis amount_text) [
      | err e ↦ err invalid_amount
      | ok send ↦
          fail_if (leb_ℤ send (pos 0)) invalid_amount
          >> planned_amounts total count script rate send
    ]

-- `withdrawAllAmountControl`, with what its entry shows.
pub record AmountControl : Type 0 where
  pub entry_text : Bytes
  pub entry_disabled : Bool
  pub place_holder : Bytes
  pub manual_value : Bytes
  pub enabled : Bool

-- `setEnabled`.
unfoldable pub set_enabled : Bool → AmountControl → AmountControl
set_enabled true c = if c.enabled then c else record {
  entry_text = [];
  entry_disabled = true;
  place_holder = codes "Calculated from all UTXOs";
  manual_value = c.entry_text;
  enabled = true;
}
set_enabled false c =
    if c.enabled
    then record {
      entry_text = c.manual_value;
      entry_disabled = false;
      place_holder = codes "e.g. 1 or 0.5";
      manual_value = c.manual_value;
      enabled = false;
    }
    else c

-- `setCalculated`.
unfoldable pub set_calculated : ℤ → AmountControl → AmountControl
set_calculated sats c = if c.enabled then record c { entry_text = format_qoge sats } else c

-- `validateRecoveryTransactionSize`.
unfoldable pub validate_recovery_transaction_size : ℤ → Bytes → Result T.Error (Unit {0})
validate_recovery_transaction_size count script =
    validate_standard_size count script >>= λ vsize. ok tt

-- `decodeSeedHex` and `decodeCreateSeedHex`.
unfoldable pub decode_seed_hex : Bytes → Result Error Bytes
decode_seed_hex text = elim (hex_decode text) [
  | none ↦ err invalid_seed
  | some seed ↦ fail_if (not (length seed == 32)) invalid_seed >> ok seed
]

unfoldable pub decode_create_seed_hex : Bytes → Bool → Result Error Bytes
unfolding decode_seed_hex
decode_create_seed_hex text backup_confirmed =
    decode_seed_hex text >>= λ seed. fail_if (not backup_confirmed) backup_not_confirmed >> ok seed
