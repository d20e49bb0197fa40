-- ===== src/Gui/Inputs.antt =====
-- main.go: the unspent outputs of a scan as the inputs of a spend, and the choice among them.
use symbiont_wallet.Base.{
  ℕ, Bool, not, ◌||◌, none, some, List, [], ◌∷◌, ◌++◌, map, length, keep, ltb, ◌==◌, Result, ok,
  err, fail_if, ◌>>◌, ◌>>=◌, if◌then◌else◌,
}
use symbiont_wallet.Base.Bytes.{Bytes, bytes_eq, bytes_lt}
use symbiont_wallet.Base.Decimal.{decimal}
use symbiont_wallet.Base.Hex.{hex_encode, hex_decode}
use symbiont_wallet.Base.Int64.{ℤ, pos, add64, sub64, ltb_ℤ, leb_ℤ}
use symbiont_wallet.Base.Keys.{has_key}
use symbiont_wallet.Address.Format.{Convert}
use symbiont_wallet.Keystore.Types.{RecoveryOutpoint}
use symbiont_wallet.Keystore.Queries.{sort_by}
use symbiont_wallet.TxBuilder.Types.{
  TxInput, TxOutput, Coin, CoinSelection, FeePlan, WithdrawAllPlan,
}
use symbiont_wallet.TxBuilder.Types as T
use symbiont_wallet.TxBuilder.Fees.{max_int64}
use symbiont_wallet.TxBuilder.TxId.{tx_id_le_from_hex}
use symbiont_wallet.TxBuilder.Coins.{coin_key, select_for_amount, select_maximum}
use symbiont_wallet.Scan.Types.{ScanUnspent, ScanResult, float_qoge_to_satoshis}
use symbiont_wallet.Scan.Types as S
use symbiont_wallet.Scan.Index.{p2qpk_script}

-- `preparedSpendUTXO`.
pub record PreparedUtxo : Type 0 where
  pub txid : Bytes
  pub vout : ℕ
  pub sats : ℤ

-- `preparedSpendInputs`. A `wallet.SpendInput` has the fields of a `TxInput`, a `wallet.SpentUTXO`
-- those of a `TxOutput`.
pub record PreparedInputs : Type 0 where
  pub wallet_inputs : List TxInput
  pub spent_utxos : List TxOutput
  pub tx_inputs : List TxInput
  pub utxos : List PreparedUtxo
  pub total_sats : ℤ

pub data Error : Type 0 where
  no_utxos duplicate_utxo amount_invalid total_overflows script_invalid : Error
  invalid_recoverable : Error
  builder_error : T.Error → Error
  scan_error : S.Error → Error

abbrev pub lifted : {A : Type 0} → Result T.Error A → Result Error A
lifted (ok a) = ok a
lifted (err e) = err (builder_error e)

-- The text `txid:vout`.
unfoldable pub outpoint_key : Bytes → ℕ → Bytes
outpoint_key txid vout = txid ++ (b':' ∷ decimal vout)

-- A script that is not empty.
unfoldable pub decode_script : Bytes → Result Error Bytes
decode_script text = elim (hex_decode text) [
  | none ↦ err script_invalid
  | some script ↦ fail_if (length script == 0) script_invalid >> ok script
]

abbrev pub nothing_prepared : ℤ → PreparedInputs
nothing_prepared total = record {
  wallet_inputs = [];
  spent_utxos = [];
  tx_inputs = [];
  utxos = [];
  total_sats = total;
}

abbrev pub coin_of : PreparedUtxo → Coin
coin_of u = record { id = u.txid; vout = u.vout; amount_sats = u.sats }

module _ {Float : Type 0} where
  abbrev pub unspent_key : ScanUnspent Float → Bytes
  unspent_key u = outpoint_key (u.txid) (u.vout)

  -- The comparison that `prepareSpendInputs` gives to `sort.Slice`. Outputs that neither comes before
  -- are one output, which is refused.
  unfoldable pub unspent_before : ScanUnspent Float → ScanUnspent Float → Bool
  unspent_before a b =
      if bytes_eq (a.txid) (b.txid) then ltb (a.vout) (b.vout) else bytes_lt (a.txid) (b.txid)

  -- One output in front of what the rest of the loop appends.
  abbrev pub with_input : ScanUnspent Float → Bytes → ℤ → Bytes → PreparedInputs → PreparedInputs
  with_input u txid_le sats script p =
      let input : TxInput = record { txid_le = txid_le; vout = u.vout; n_sequence = 0xffff_ffff } in
      record {
        wallet_inputs = input ∷ p.wallet_inputs;
        spent_utxos = record { amount = sats; script = script } ∷ p.spent_utxos;
        tx_inputs = input ∷ p.tx_inputs;
        utxos = record { txid = u.txid; vout = u.vout; sats = sats } ∷ p.utxos;
        total_sats = p.total_sats;
      }

  -- `selectedScanUnspents`.
  unfoldable pub selected_scan_unspents :
      List (ScanUnspent Float) → List Coin → List (ScanUnspent Float)
  selected_scan_unspents unspents selected =
      keep (λ u. has_key (unspent_key u) (map coin_key selected)) unspents

module _ {Float : Type 0} (fixed8 : Float → Bytes) where
  -- A positive amount of satoshis.
  unfoldable pub positive_sats : Float → Result Error ℤ
  positive_sats amount = elim (float_qoge_to_satoshis fixed8 amount) [
    | err e ↦ err amount_invalid
    | ok sats ↦ fail_if (leb_ℤ sats (pos 0)) amount_invalid >> ok sats
  ]

  -- The loop of `prepareSpendInputs`, with the keys it has seen and the total so far.
  unfoldable pub prepare_each :
      List Bytes → ℤ → List (ScanUnspent Float) → Result Error PreparedInputs
  unfolding positive_sats decode_script
  prepare_each seen total [] = ok (nothing_prepared total)
  prepare_each seen total (u ∷ us) =
      fail_if (has_key (unspent_key u) seen) duplicate_utxo
      >> (lifted (tx_id_le_from_hex (u.txid)) >>= λ txid_le. positive_sats (u.amount) >>= λ sats.
          fail_if (ltb_ℤ (sub64 (pos max_int64) sats) total) total_overflows
          >> (decode_script (u.script_pub_key) >>= λ script.
              prepare_each (unspent_key u ∷ seen) (add64 total sats) us >>= λ p.
              ok (with_input u txid_le sats script p)))

  -- `prepareSpendInputs`.
  unfoldable pub prepare_spend_inputs : List (ScanUnspent Float) → Result Error PreparedInputs
  unfolding prepare_each unspent_before
  prepare_spend_inputs unspents =
      fail_if (length unspents == 0) no_utxos
      >> prepare_each [] (pos 0) (sort_by unspent_before unspents)

  -- `spendCandidates`.
  unfoldable pub spend_candidates : List (ScanUnspent Float) → Result Error (List Coin)
  spend_candidates unspents = prepare_spend_inputs unspents >>= λ p. ok (map coin_of (p.utxos))

  -- `selectSpendInputsForAmount`.
  unfoldable pub select_spend_inputs_for_amount :
      List (ScanUnspent Float)
      → ℤ
      → ℤ
      → Bytes
      → Result Error (PreparedInputs × CoinSelection × FeePlan)
  unfolding spend_candidates selected_scan_unspents
  select_spend_inputs_for_amount unspents send rate script = spend_candidates unspents >>= λ coins.
      lifted (select_for_amount coins send rate script) >>= λ (selection, plan).
      prepare_spend_inputs (selected_scan_unspents unspents (selection.selected)) >>= λ prepared.
      ok (prepared, selection, plan)

  -- `selectSpendInputsMaximum`.
  unfoldable pub select_spend_inputs_maximum :
      List (ScanUnspent Float)
      → ℤ
      → Bytes
      → Result Error (PreparedInputs × CoinSelection × WithdrawAllPlan)
  unfolding spend_candidates selected_scan_unspents
  select_spend_inputs_maximum unspents rate script = spend_candidates unspents >>= λ coins.
      lifted (select_maximum coins rate script) >>= λ (selection, plan).
      prepare_spend_inputs (selected_scan_unspents unspents (selection.selected)) >>= λ prepared.
      ok (prepared, selection, plan)

  -- The loop of `recoverableOutpoints`.
  unfoldable pub outpoints_paying :
      Bytes → List (ScanUnspent Float) → Result Error (List RecoveryOutpoint)
  outpoints_paying script_hex [] = ok []
  outpoints_paying script_hex (u ∷ us) =
      let rest = outpoints_paying script_hex us in
      if not (bytes_eq (u.script_pub_key) script_hex)
      then rest
      else elim (float_qoge_to_satoshis fixed8 (u.amount)) [
        | err e ↦ err invalid_recoverable
        | ok sats ↦
            fail_if (leb_ℤ sats (pos 0) || not (length (u.txid) == 64)) invalid_recoverable
            >> (rest >>= λ outpoints.
                ok (record { txid = u.txid; vout = u.vout; amount_sats = sats } ∷ outpoints))
      ]

  -- `recoverableOutpoints`, with the script that the transaction builder makes of the address.
  unfoldable pub recoverable_outpoints :
      Convert → ScanResult Float → Bytes → Result Error (List RecoveryOutpoint)
  unfolding outpoints_paying
  recoverable_outpoints convert_bits result addr = elim (p2qpk_script convert_bits addr) [
    | err e ↦ err (scan_error e)
    | ok script ↦ outpoints_paying (hex_encode script) (result.unspents)
  ]
