-- ===== src/Scan/Balances.antt =====
-- balance.go and deposits.go: `AggregateBalances`, `AnalyzeFunding` and `AnalyzeDeposits`.
use symbiont_wallet.Base.{
  ◌||◌, none, some, List, [], ◌∷◌, ◌++◌, map, length, ◌==◌, Result, ok, err, ◌>>=◌, if◌then◌else◌,
}
use symbiont_wallet.Base.Bytes.{Bytes}
use symbiont_wallet.Base.Int64.{ℤ, pos, add64, sub64, ltb_ℤ, leb_ℤ, eq_ℤ}
use symbiont_wallet.Base.Maps.{Map, lookup, insert, get_or}
use symbiont_wallet.Address.Format.{Convert}
use symbiont_wallet.Scan.Types.{
  ScanUnspent, ScanResult, FundingStatus, Deposit, Error, decimal_error, empty_txid,
  float_qoge_to_satoshis,
}
use symbiont_wallet.Scan.Index.{index_addrs}

-- `int(tip - height + 1)`, not below 0.
unfoldable pub depth_of : ℤ → ℤ → ℤ
depth_of tip height =
    let confirmations = add64 (sub64 tip height) (pos 1) in
    if ltb_ℤ confirmations (pos 0) then pos 0 else confirmations

-- A status after one more output.
unfoldable pub add_funding : ℤ → ℤ → FundingStatus → FundingStatus
add_funding sats confirmations status = record {
  balance_sats = add64 (status.balance_sats) sats;
  confirmations =
      if eq_ℤ (status.confirmations) (pos 0) || ltb_ℤ confirmations (status.confirmations)
      then confirmations
      else status.confirmations;
}

abbrev pub no_funding : FundingStatus
no_funding = record { balance_sats = pos 0; confirmations = pos 0 }

module _ {Float : Type 0} (fixed8 : Float → Bytes) where
  -- The second loop of `AggregateBalances`.
  unfoldable pub add_balances : Map Bytes → List (ScanUnspent Float) → Map ℤ → Result Error (Map ℤ)
  add_balances scripts [] balances = ok balances
  add_balances scripts (u ∷ us) balances = elim (lookup (u.script_pub_key) scripts) [
    | none ↦ add_balances scripts us balances
    | some addr ↦ elim (float_qoge_to_satoshis fixed8 (u.amount)) [
      | err e ↦ err (decimal_error e)
      | ok sats ↦
          add_balances scripts us
            (insert addr (add64 (get_or (pos 0) (lookup addr balances)) sats) balances)
    ]
  ]

  -- The second loop of `AnalyzeFunding`; an output that is worth nothing is passed over.
  unfoldable pub add_statuses :
      ℤ
      → Map Bytes
      → List (ScanUnspent Float)
      → Map FundingStatus
      → Result Error (Map FundingStatus)
  add_statuses tip scripts [] statuses = ok statuses
  add_statuses tip scripts (u ∷ us) statuses = elim (lookup (u.script_pub_key) scripts) [
    | none ↦ add_statuses tip scripts us statuses
    | some addr ↦ elim (float_qoge_to_satoshis fixed8 (u.amount)) [
      | err e ↦ err (decimal_error e)
      | ok sats ↦
          let status = get_or no_funding (lookup addr statuses) in
          add_statuses tip scripts us (
            if leb_ℤ sats (pos 0)
            then statuses
            else insert addr (add_funding sats (depth_of tip (u.height)) status) statuses)
    ]
  ]

  -- The second loop of `AnalyzeDeposits`.
  unfoldable pub add_deposits :
      Map Bytes → List (ScanUnspent Float) → Map (Map ℤ) → Result Error (Map (Map ℤ))
  add_deposits scripts [] grouped = ok grouped
  add_deposits scripts (u ∷ us) grouped = elim (lookup (u.script_pub_key) scripts) [
    | none ↦ add_deposits scripts us grouped
    | some addr ↦
        let group = get_or [] (lookup addr grouped) in
        let rest = add_deposits scripts us in
        if length (u.txid) == 0
        then err empty_txid
        else elim (float_qoge_to_satoshis fixed8 (u.amount)) [
          | err e ↦ err (decimal_error e)
          | ok sats ↦ rest (
              insert addr
                (insert (u.txid) (add64 (get_or (pos 0) (lookup (u.txid) group)) sats) group)
                grouped)
        ]
  ]

  module _ (convert_bits : Convert) where
    -- `AggregateBalances`.
    unfoldable pub aggregate_balances : ScanResult Float → List Bytes → Result Error (Map ℤ)
    aggregate_balances result addrs =
        index_addrs convert_bits (pos 0) addrs ([], []) >>= λ (scripts, balances).
        add_balances scripts (result.unspents) balances

    -- `AnalyzeFunding`.
    unfoldable pub analyze_funding :
        ScanResult Float → List Bytes → Result Error (Map FundingStatus)
    analyze_funding result addrs =
        index_addrs convert_bits no_funding addrs ([], []) >>= λ (scripts, statuses).
        add_statuses (result.height) scripts (result.unspents) statuses

abbrev pub deposits_of : Map ℤ → List Deposit
deposits_of g = map (λ (txid, sats). record { txid = txid; amount_sats = sats }) g

-- The inner loop at the end of `AnalyzeDeposits`: the address has no entry before the first append.
unfoldable pub append_deposits : Bytes → Map ℤ → Map (List Deposit) → Map (List Deposit)
append_deposits addr [] found = found
append_deposits addr (e ∷ es) found =
    insert addr (get_or [] (lookup addr found) ++ deposits_of (e ∷ es)) found

-- The last loop of `AnalyzeDeposits`. A walk over a map has no order of its own: `walk` is the order
-- that the runtime takes.
module _ (walk : Map ℤ → Map ℤ) where
  unfoldable pub list_deposits : Map (Map ℤ) → List Bytes → Map (List Deposit) → Map (List Deposit)
  unfolding append_deposits
  list_deposits grouped [] found = found
  list_deposits grouped (addr ∷ addrs) found =
      list_deposits grouped addrs
        (append_deposits addr (walk (get_or [] (lookup addr grouped))) found)

  module _ {Float : Type 0} (fixed8 : Float → Bytes) (convert_bits : Convert) where
    -- `AnalyzeDeposits`.
    unfoldable pub analyze_deposits :
        ScanResult Float → List Bytes → Result Error (Map (List Deposit))
    analyze_deposits result addrs =
        index_addrs convert_bits [] addrs ([], []) >>= λ (scripts, grouped).
        add_deposits fixed8 scripts (result.unspents) grouped >>= λ grouped.
        ok (list_deposits grouped addrs [])
