-- ===== src/Gui/Selected.antt =====
-- main.go: the inputs that `selectSpendInputsForAmount` prepares are the coins that were selected, and
-- the plan is theirs.
use symbiont_wallet.Base.{
  suc, ◌≡◌, refl, sym, ap, ◌∙◌, subst, Bool, true, not, inl, inr, List, [], ◌∷◌, ◌++◌, map, length,
  length-map, keep, All, All-imp, ok, Result-cases, append-nil, arith,
}
use mathlib.Core.List.{Perm}
use mathlib.Core.List.Perm
use symbiont_wallet.Base.Bytes.{Bytes}
use symbiont_wallet.Base.Int64.{ℤ, pos, pos_part, IsInt64}
use symbiont_wallet.Base.Keys.{has_key}
use symbiont_wallet.Base.Perms.{
  keep-Perm, sum_of, sum_of-Perm, length-Perm, keep-keep_not, keep-map,
}
use symbiont_wallet.TxBuilder.Types.{TxInput, TxOutput, Coin, CoinSelection, FeePlan}
use symbiont_wallet.TxBuilder.Plan.{IsPlanned, plan_fee_ok}
use symbiont_wallet.TxBuilder.Coins.{coin_key, unchosen, select_for_amount}
use symbiont_wallet.TxBuilder.Choice.{IsAmount, sum_amounts}
use symbiont_wallet.TxBuilder.Selection.{keep-All, keep-append, own_keys}
use symbiont_wallet.TxBuilder.Chosen.{
  IsUnchosen, select_for_amount_ok, select_for_amount-IsUnchosen,
}
use symbiont_wallet.Scan.Types.{ScanUnspent}
use symbiont_wallet.Gui.Inputs.{
  PreparedInputs, outpoint_key, prepare_spend_inputs, coin_of, spend_candidates,
  selected_scan_unspents, select_spend_inputs_for_amount,
}
use symbiont_wallet.Gui.Prepared.{utxo_of, coin_of_unspent, SpendsEach, prepare_spend_inputs_ok}

-- Whether a coin has the key of a selected one.
abbrev is_selected : List Coin → Coin → Bool
is_selected selected c = has_key (coin_key c) (map coin_key selected)

own_selected : (cs : List Coin) → All (λ c. is_selected cs c ≡ true) cs
own_selected cs = All-imp (λ c k. ground (arith, k)) cs (own_keys (map coin_key cs) cs (λ k e. e))

keep_selected :
    (sel : CoinSelection) (coins : List Coin)
    → IsUnchosen sel
    → Perm (sel.selected ++ sel.unselected) coins
    → Perm (keep (is_selected (sel.selected)) coins) (sel.selected)
unfolding unchosen
keep_selected sel coins (all, e) h =
    let q = is_selected (sel.selected) in
    let own : keep q (sel.selected) ≡ sel.selected =
      keep-All q (sel.selected) (own_selected (sel.selected)) in
    let none : keep q (sel.unselected) ≡ [] =
      ap (keep q) e ∙ keep-keep_not q (λ c. not (q c)) (λ c k. ground (arith, k)) all in
    let same : keep q (sel.selected ++ sel.unselected) ≡ sel.selected =
      keep-append q (sel.selected) (sel.unselected)
      ∙ ap (λ (l : List Coin). l ++ keep q (sel.unselected)) own
      ∙ ap (λ (l : List Coin). sel.selected ++ l) none
      ∙ append-nil (sel.selected) in
    subst (λ (l : List Coin). Perm (keep q coins) l) same (Perm.symm (keep-Perm q h))

sum_amounts-sum_of : (cs : List Coin) → sum_amounts cs ≡ sum_of (λ c. pos_part (c.amount_sats)) cs
sum_amounts-sum_of [] = refl
sum_amounts-sum_of (c ∷ cs) = omega (arith, sum_amounts-sum_of cs)

sum_amounts-Perm : (xs ys : List Coin) → Perm xs ys → sum_amounts xs ≡ sum_amounts ys
sum_amounts-Perm xs ys h =
    sum_amounts-sum_of xs
    ∙ sum_of-Perm (λ c. pos_part (c.amount_sats)) h
    ∙ sym (sum_amounts-sum_of ys)

module _ {Float : Type 0} (fixed8 : Float → Bytes) where
  coins_of :
      (us : List (ScanUnspent Float))
      → map coin_of (map (utxo_of fixed8) us) ≡ map (coin_of_unspent fixed8) us
  coins_of [] = refl
  coins_of (u ∷ us) = ap (λ (l : List Coin). coin_of_unspent fixed8 u ∷ l) (coins_of us)

  -- As coins, the selected outputs of a scan are the coins with a selected key.
  selected_coins :
      (us : List (ScanUnspent Float)) (selected : List Coin)
      → map (coin_of_unspent fixed8) (selected_scan_unspents us selected)
        ≡ keep (is_selected selected) (map (coin_of_unspent fixed8) us)
  unfolding selected_scan_unspents coin_key outpoint_key
  selected_coins us selected = sym (keep-map (coin_of_unspent fixed8) (is_selected selected) us)

  spends_length :
      (us : List (ScanUnspent Float)) (is : List TxInput) (os : List TxOutput)
      → SpendsEach fixed8 us is os
      → length is ≡ length us
  spends_length [] [] [] h = refl
  spends_length [] [] (o ∷ os) h = absurd h
  spends_length [] (i ∷ is) os h = absurd h
  spends_length (u ∷ us) [] os h = absurd h
  spends_length (u ∷ us) (i ∷ is) [] h = absurd h
  spends_length (u ∷ us) (i ∷ is) (o ∷ os) (h, hs) = ap suc (spends_length us is os hs)

  -- The prepared outputs as coins, and how many inputs there are.
  prepared_coins :
      (us : List (ScanUnspent Float)) (p : PreparedInputs)
      → prepare_spend_inputs fixed8 us ≡ ok p
      → Perm (map coin_of (p.utxos)) (map (coin_of_unspent fixed8) us)
        × (p.total_sats ≡ pos (sum_amounts (map coin_of (p.utxos))))
        × (length (p.wallet_inputs) ≡ length (map coin_of (p.utxos)))
        × All IsAmount (map coin_of (p.utxos))
        × IsInt64 (p.total_sats)
  prepared_coins us p h =
      let (ordered, perm, ready) = prepare_spend_inputs_ok fixed8 us p h in
      let same : map (coin_of_unspent fixed8) ordered ≡ map coin_of (p.utxos) =
        sym (coins_of ordered) ∙ ap (map coin_of) (sym ready.listed) in
      subst
        (λ (l : List Coin).
          Perm l (map (coin_of_unspent fixed8) us)
          × (p.total_sats ≡ pos (sum_amounts l))
          × (length (p.wallet_inputs) ≡ length l)
          × All IsAmount l
          × IsInt64 (p.total_sats))
        same
        (
          Perm.map (coin_of_unspent fixed8) perm,
          ready.total ∙ ap pos (omega arith),
          spends_length ordered (p.wallet_inputs) (p.spent_utxos) ready.spends
              ∙ sym (length-map (coin_of_unspent fixed8) ordered),
          ready.amounts,
          subst IsInt64 (sym ready.total) ready.fits,
        )

  -- What a choice of inputs promises: the prepared outputs are the selected coins, each once, they are
  -- worth the selected total, and the plan spends exactly that, at the size that so many inputs make.
  abbrev pub IsFunded : ℤ → ℤ → Bytes → PreparedInputs → CoinSelection → FeePlan → Type 0
  IsFunded send rate script p sel plan =
      Perm (map coin_of (p.utxos)) (sel.selected)
      × (p.total_sats ≡ sel.selected_total)
      × IsPlanned (p.total_sats) send rate (pos (length (p.wallet_inputs))) script plan

  selected-IsFunded :
      (us : List (ScanUnspent Float)) (send rate : ℤ) (script : Bytes) (q p : PreparedInputs)
      (sel : CoinSelection) (plan : FeePlan)
      → IsInt64 send
      → IsInt64 rate
      → prepare_spend_inputs fixed8 us ≡ ok q
      → select_for_amount (map coin_of (q.utxos)) send rate script ≡ ok (sel, plan)
      → prepare_spend_inputs fixed8 (selected_scan_unspents us (sel.selected)) ≡ ok p
      → IsFunded send rate script p sel plan
  selected-IsFunded us send rate script q p sel plan hs hr eq es ep =
      let coins = map coin_of (q.utxos) in
      let (all, _, _, amounts, _) = prepared_coins us q eq in
      let int64 = All-imp (λ c k. k.0) coins amounts in
      let ((perm, few, total, _), planned) =
        select_for_amount_ok coins send rate script sel plan int64 es in
      let (some_of, worth, count, _, fits) =
        prepared_coins (selected_scan_unspents us (sel.selected)) p ep in
      let chosen =
        keep_selected sel coins
          (select_for_amount-IsUnchosen coins send rate script sel plan int64 es) perm in
      let same : Perm (map coin_of (p.utxos)) (sel.selected) =
        Perm.trans (subst (Perm (map coin_of (p.utxos))) (selected_coins us (sel.selected)) some_of)
          (Perm.trans (keep-Perm (is_selected (sel.selected)) (Perm.symm all)) chosen) in
      let equal : p.total_sats ≡ sel.selected_total =
        worth ∙ ap pos (sum_amounts-Perm (map coin_of (p.utxos)) (sel.selected) same) ∙ sym total in
      let inputs : length (p.wallet_inputs) ≡ length (sel.selected) = count ∙ length-Perm same in
      (
        same,
        equal,
        plan_fee_ok (p.total_sats) send rate (pos (length (p.wallet_inputs))) script plan fits hs hr
            (ground (arith, equal, inputs)),
      )

  -- When `selectSpendInputsForAmount` succeeds, for int64 arguments, the inputs it prepares are the
  -- selected coins, each once, they are worth the selected total, and the plan spends that total
  -- exactly: what is sent, the fee and the change add up to it, and the fee is enough for a transaction
  -- with so many inputs.
  pub select_spend_inputs_for_amount_ok :
      (us : List (ScanUnspent Float)) (send rate : ℤ) (script : Bytes) (p : PreparedInputs)
      (sel : CoinSelection) (plan : FeePlan)
      → IsInt64 send
      → IsInt64 rate
      → select_spend_inputs_for_amount fixed8 us send rate script ≡ ok (p, sel, plan)
      → IsFunded send rate script p sel plan
  unfolding select_spend_inputs_for_amount spend_candidates
  select_spend_inputs_for_amount_ok us send rate script p sel plan hs hr h =
      elim (Result-cases (prepare_spend_inputs fixed8 us)) [
        | inr (bad, e) ↦ absurd (ground arith)
        | inl (q, eq) ↦
            elim (Result-cases (select_for_amount (map coin_of (q.utxos)) send rate script)) [
              | inr (bad, e) ↦ absurd (ground arith)
              | inl ((sel', plan'), es) ↦
                  elim (Result-cases
                    (prepare_spend_inputs fixed8 (selected_scan_unspents us (sel'.selected)))) [
                      | inr (bad, e) ↦ absurd (ground arith)
                      | inl (p', ep) ↦
                          let ep' : p' ≡ p = ground arith in
                          let es' : sel' ≡ sel = ground arith in
                          let el' : plan' ≡ plan = ground arith in
                          selected-IsFunded us send rate script q p sel plan hs hr eq
                            (ground (arith, es)) (ground (arith, ep, es', ep'))
                    ]
            ]
      ]
