-- ===== src/TxBuilder/Coins.antt =====
-- txbuilder.go: the order of the coins and the two selections.
use symbiont_wallet.Base.{
  ℕ, zero, suc, ◌-◌, Bool, not, Option, none, some, List, [], ◌∷◌, ◌++◌, length, take, drop, keep,
  ltb, ◌==◌, Result, ok, err, fail_if, ◌>>◌, ◌>>=◌, if◌then◌else◌, map,
}
use symbiont_wallet.Base.Bytes.{Bytes, bytes_eq, bytes_lt}
use symbiont_wallet.Base.Decimal.{decimal}
use symbiont_wallet.Base.Int64.{ℤ, pos, add64, sub64, ltb_ℤ, leb_ℤ, eq_ℤ}
use symbiont_wallet.Base.Keys.{has_key}
use symbiont_wallet.TxBuilder.Types.{
  Coin, CoinSelection, FeePlan, WithdrawAllPlan, Error, no_utxos, amount_not_positive,
  duplicate_utxo, total_overflows, send_not_positive, rate_not_positive, script_empty,
  insufficient_funds,
}
use symbiont_wallet.TxBuilder.Size.{safe_max_inputs}
use symbiont_wallet.TxBuilder.Fees.{max_int64, plan_fee, plan_withdraw_all}

-- The text `id:vout`.
unfoldable pub coin_key : Coin → Bytes
coin_key c = c.id ++ (b':' ∷ decimal (c.vout))

-- The loop of `orderedP2QPKCoins`, with the keys it has seen.
unfoldable pub check_coins : List Bytes → List Coin → Result Error (Unit {0})
check_coins seen [] = ok tt
check_coins seen (c ∷ cs) =
    fail_if (leb_ℤ (c.amount_sats) (pos 0)) amount_not_positive
    >> fail_if (has_key (coin_key c) seen) duplicate_utxo
    >> check_coins (coin_key c ∷ seen) cs

-- The comparison that is given to `sort.Slice`.
unfoldable pub coin_less : Coin → Coin → Bool
coin_less a b =
    if not (eq_ℤ (a.amount_sats) (b.amount_sats))
    then ltb_ℤ (a.amount_sats) (b.amount_sats)
    else if not (bytes_eq (a.id) (b.id))
    then bytes_lt (a.id) (b.id)
    else ltb (a.vout) (b.vout)

-- `sort.Slice`, by insertion: no two coins have one key, so every sort gives the same list.
unfoldable pub insert_coin : Coin → List Coin → List Coin
insert_coin c [] = c ∷ []
insert_coin c (d ∷ ds) =
    let rest = insert_coin c ds in if coin_less d c then d ∷ rest else c ∷ d ∷ ds

unfoldable pub sort_coins : List Coin → List Coin
sort_coins [] = []
sort_coins (c ∷ cs) = insert_coin c (sort_coins cs)

-- `orderedP2QPKCoins`.
unfoldable pub ordered_coins : List Coin → Result Error (List Coin)
unfolding check_coins sort_coins
ordered_coins coins =
    fail_if (length coins == 0) no_utxos >> check_coins [] coins >> ok (sort_coins coins)

-- The guarded sums of the package: `total > math.MaxInt64 - amount` fails.
unfoldable pub add_amounts : ℤ → List Coin → Result Error ℤ
add_amounts total [] = ok total
add_amounts total (c ∷ cs) =
    fail_if (ltb_ℤ (sub64 (pos max_int64) (c.amount_sats)) total) total_overflows
    >> add_amounts (add64 total (c.amount_sats)) cs

-- The coins of `all` whose key is not that of a chosen one.
unfoldable pub unchosen : List Coin → List Coin → List Coin
unchosen all selected = keep (λ c. not (has_key (coin_key c) (map coin_key selected))) all

-- `buildP2QPKCoinSelection`.
unfoldable pub build_selection : List Coin → List Coin → Result Error CoinSelection
unfolding add_amounts unchosen
build_selection all selected =
    let unselected = unchosen all selected in
    add_amounts (pos 0) selected >>= λ selected_total.
    add_amounts (pos 0) unselected >>= λ unselected_total. ok (record {
      selected = selected;
      unselected = unselected;
      selected_total = selected_total;
      unselected_total = unselected_total;
    })

-- A selection and the plan that it pays for.
abbrev pub Funded : Type 0
Funded = CoinSelection × FeePlan

abbrev pub with_plan : FeePlan → Result Error CoinSelection → Result Error (Option Funded)
with_plan plan r = r >>= λ selection. ok (some (selection, plan))

-- The loop over the prefixes: `turns` of them are left, `count` coins of `ordered` are added up in
-- `total`, and `rest` follows them.
unfoldable pub try_prefixes :
    List Coin → ℤ → ℤ → Bytes → ℕ → ℕ → ℤ → List Coin → Result Error (Option Funded)
unfolding build_selection
try_prefixes ordered send rate script zero count total rest = ok none
try_prefixes ordered send rate script (suc turns) count total [] = ok none
try_prefixes ordered send rate script (suc turns) count total (c ∷ rest) =
    let total' = add64 total (c.amount_sats) in
    let more = try_prefixes ordered send rate script turns (suc count) total' rest in
    fail_if (ltb_ℤ (sub64 (pos max_int64) (c.amount_sats)) total) total_overflows
    >> elim (plan_fee total' send rate (pos (suc count)) script) [
      | ok plan ↦ with_plan plan (build_selection ordered (take (suc count) ordered))
      | err _ ↦ more
    ]

-- The attempt with the largest coins, when there are more than fit.
unfoldable pub try_largest : List Coin → ℤ → ℤ → Bytes → Result Error (Option Funded)
unfolding build_selection
try_largest ordered send rate script =
    let largest = drop (length ordered - safe_max_inputs) ordered in
    if ltb safe_max_inputs (length ordered)
    then (add_amounts (pos 0) largest >>= λ total.
        elim (plan_fee total send rate (pos (length largest)) script) [
          | ok plan ↦ with_plan plan (build_selection ordered largest)
          | err _ ↦ ok none
        ])
    else ok none

-- `limit`.
abbrev pub input_limit : List Coin → ℕ
input_limit ordered =
    if ltb safe_max_inputs (length ordered) then safe_max_inputs else length ordered

-- `SelectP2QPKForAmount`.
unfoldable pub select_for_amount : List Coin → ℤ → ℤ → Bytes → Result Error Funded
unfolding ordered_coins try_prefixes try_largest
select_for_amount coins send rate script =
    fail_if (leb_ℤ send (pos 0)) send_not_positive
    >> fail_if (leb_ℤ rate (pos 0)) rate_not_positive
    >> fail_if (length script == 0) script_empty
    >> (ordered_coins coins >>= λ ordered.
        try_prefixes ordered send rate script (input_limit ordered) 0 (pos 0) ordered >>= λ found.
        elim found [
          | some funded ↦ ok funded
          | none ↦ try_largest ordered send rate script >>= λ found. elim found [
            | some funded ↦ ok funded
            | none ↦ err insufficient_funds
          ]
        ])

-- `SelectP2QPKMaximum`.
unfoldable pub select_maximum :
    List Coin → ℤ → Bytes → Result Error (CoinSelection × WithdrawAllPlan)
unfolding ordered_coins build_selection
select_maximum coins rate script =
    fail_if (leb_ℤ rate (pos 0)) rate_not_positive
    >> fail_if (length script == 0) script_empty
    >> (ordered_coins coins >>= λ ordered.
        build_selection ordered (take (input_limit ordered) ordered) >>= λ selection.
        plan_withdraw_all (selection.selected_total) rate (pos (input_limit ordered)) script
        >>= λ plan. ok (selection, plan))
