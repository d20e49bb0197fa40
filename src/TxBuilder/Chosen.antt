-- ===== src/TxBuilder/Chosen.antt =====
-- txbuilder.go: what `SelectP2QPKForAmount` and `SelectP2QPKMaximum` return.
use symbiont_wallet.Base.{
  ◌≤◌, ◌≡◌, refl, sym, ap, ◌∙◌, subst, ◌⊎◌, inl, inr, none, some, List, [], ◌∷◌, ◌++◌, length, take,
  drop, All, All-both, All-append_parts, take-append-drop, length-take, ok, Result-cases, arith,
  append-nil,
}
use symbiont_wallet.Base.Bytes.{Bytes}
use symbiont_wallet.Base.Int64.{ℤ, pos, IsInt64}
use symbiont_wallet.TxBuilder.Types.{Coin, CoinSelection, FeePlan, WithdrawAllPlan}
use symbiont_wallet.TxBuilder.Size.{safe_max_inputs}
use symbiont_wallet.TxBuilder.Fees.{plan_fee, plan_withdraw_all}
use symbiont_wallet.TxBuilder.Coins.{
  add_amounts, unchosen, build_selection, try_prefixes, try_largest, ordered_coins, sort_coins,
  select_for_amount, select_maximum, input_limit,
}
use symbiont_wallet.TxBuilder.Ordering.{IsDistinct}
use symbiont_wallet.TxBuilder.Selection.{unchosen-prefix, unchosen-suffix}
use mathlib.Core.List.{Perm, perm_middle}
use mathlib.Core.List.Perm
use symbiont_wallet.TxBuilder.Ordering.{ordered_coins_ok, sort_coins-All}
use symbiont_wallet.TxBuilder.Choice.{
  IsAmount, IsChoice, sum_amounts, build_selection_ok, try_prefixes_ok, try_largest_ok,
}

append-Perm : (xs ys : List Coin) → Perm (xs ++ ys) (ys ++ xs)
append-Perm [] ys = subst (Perm ys) (sym (append-nil ys)) (Perm.refl ys)
append-Perm (x ∷ xs) ys =
    Perm.trans (Perm.cons x (append-Perm xs ys)) (Perm.symm (perm_middle ys xs))

-- What a selection promises: the coins are those given, chosen or not, at most 22 are chosen, and
-- the totals are those of the two parts.
abbrev pub IsSelection : List Coin → CoinSelection → Type 0
IsSelection coins sel =
    Perm (sel.selected ++ sel.unselected) coins
    × (length (sel.selected) ≤ safe_max_inputs)
    × (sel.selected_total ≡ pos (sum_amounts (sel.selected)))
    × (sel.unselected_total ≡ pos (sum_amounts (sel.unselected)))

abbrev pub HasAmount : Coin → Type 0
HasAmount c = IsInt64 (c.amount_sats)

-- The parts of an ordered list.
either_way :
    (ordered xs ys : List Coin)
    → IsDistinct ordered
    → All IsAmount ordered
    → ((xs ++ ys ≡ ordered) ⊎ (ys ++ xs ≡ ordered))
    → Perm (xs ++ ys) ordered × (unchosen ordered xs ≡ ys) × All IsAmount xs × All IsAmount ys
either_way ordered xs ys d a (inl e) =
    let (ax, ay) =
      All-append_parts IsAmount xs ys (subst (λ (l : List Coin). All IsAmount l) (sym e) a) in
    (
      subst (λ (l : List Coin). Perm (xs ++ ys) l) e (Perm.refl (xs ++ ys)),
      ap (λ (l : List Coin). unchosen l xs) (sym e)
          ∙ unchosen-prefix xs ys (subst (λ (l : List Coin). IsDistinct l) (sym e) d),
      ax,
      ay,
    )
either_way ordered xs ys d a (inr e) =
    let (ay, ax) =
      All-append_parts IsAmount ys xs (subst (λ (l : List Coin). All IsAmount l) (sym e) a) in
    (
      subst (λ (l : List Coin). Perm (xs ++ ys) l) e (append-Perm xs ys),
      ap (λ (l : List Coin). unchosen l xs) (sym e)
          ∙ unchosen-suffix ys xs (subst (λ (l : List Coin). IsDistinct l) (sym e) d),
      ax,
      ay,
    )

-- The ordered coins have amounts, when those given are int64.
ordered-IsAmount :
    (coins ordered : List Coin)
    → All HasAmount coins
    → ordered_coins coins ≡ ok ordered
    → All IsAmount ordered
ordered-IsAmount coins ordered a h =
    let (_, _, _, positive) = ordered_coins_ok coins ordered h in
    let same : sort_coins coins ≡ ordered = unfold ordered_coins in ground arith in
    All-both (λ c hi hp. (hi, hp)) ordered
      (subst (λ (l : List Coin). All HasAmount l) same (sort_coins-All HasAmount coins a)) positive

chosen-IsSelection :
    (coins ordered xs ys : List Coin) (sel : CoinSelection)
    → All HasAmount coins
    → ordered_coins coins ≡ ok ordered
    → ((xs ++ ys ≡ ordered) ⊎ (ys ++ xs ≡ ordered))
    → length xs ≤ safe_max_inputs
    → build_selection ordered xs ≡ ok sel
    → IsSelection coins sel × (sel.selected ≡ xs) × (sel.selected_total ≡ pos (sum_amounts xs))
chosen-IsSelection coins ordered xs ys sel a ho e l h =
    let (perm, _, distinct, _) = ordered_coins_ok coins ordered ho in
    let (both, rest, ax, ay) =
      either_way ordered xs ys distinct (ordered-IsAmount coins ordered a ho) e in
    let (es, eu, et, ev) = build_selection_ok ordered xs ys sel rest ax ay h in
    let same : xs ++ ys ≡ sel.selected ++ sel.unselected = cc in
    (
      (
        subst (λ (m : List Coin). Perm m coins) same (Perm.trans both perm),
        subst (λ (m : List Coin). length m ≤ safe_max_inputs) (sym es) l,
        et ∙ ap (λ (m : List Coin). pos (sum_amounts m)) (sym es),
        ev ∙ ap (λ (m : List Coin). pos (sum_amounts m)) (sym eu),
      ),
      es,
      et,
    )

IsChoice-of :
    (coins : List Coin) (send rate : ℤ) (script : Bytes) (sel : CoinSelection) (plan : FeePlan)
    → All HasAmount coins
    → select_for_amount coins send rate script ≡ ok (sel, plan)
    → (ordered xs ys : List Coin) × (ordered_coins coins ≡ ok ordered)
      × IsChoice ordered send rate script sel plan xs ys
unfolding select_for_amount
IsChoice-of coins send rate script sel plan a h = elim (Result-cases (ordered_coins coins)) [
  | inr (bad, e) ↦ absurd (ground arith)
  | inl (ordered, eo) ↦
      let amounts = ordered-IsAmount coins ordered a eo in
      elim (Result-cases
        (try_prefixes ordered send rate script (input_limit ordered) 0 (pos 0) ordered)) [
          | inr (bad, e) ↦ absurd (ground arith)
          | inl (some (s, p), e) ↦
              let (xs, ys, choice) =
                try_prefixes_ok send rate script ordered sel plan (input_limit ordered) [] ordered
                  refl (ground arith) amounts (omega arith) (ground arith) in
              (ordered, xs, ys, eo, choice)
          | inl (none, e) ↦ elim (Result-cases (try_largest ordered send rate script)) [
            | inr (bad, e') ↦ absurd (ground arith)
            | inl (none, e') ↦ absurd (ground arith)
            | inl (some (s, p), e') ↦
                let (xs, ys, choice) =
                  try_largest_ok send rate script ordered sel plan amounts (ground arith) in
                (ordered, xs, ys, eo, choice)
          ]
        ]
]

-- A selection that `SelectP2QPKForAmount` returns, of coins with int64 amounts, splits them into at
-- most 22 chosen ones and the others, with the true totals, and its plan is the one that
-- `PlanP2QPKFee` makes of the selected total and the number of the selected coins.
pub select_for_amount_ok :
    (coins : List Coin) (send rate : ℤ) (script : Bytes) (sel : CoinSelection) (plan : FeePlan)
    → All HasAmount coins
    → select_for_amount coins send rate script ≡ ok (sel, plan)
    → IsSelection coins sel
      × (plan_fee (sel.selected_total) send rate (pos (length (sel.selected))) script ≡ ok plan)
select_for_amount_ok coins send rate script sel plan a h =
    let (ordered, xs, ys, eo, (e, l, hb, hp)) = IsChoice-of coins send rate script sel plan a h in
    let (selection, es, et) = chosen-IsSelection coins ordered xs ys sel a eo e l hb in
    (selection, cc)

-- What is left unselected does not have the key of a selected coin.
abbrev pub IsUnchosen : CoinSelection → Type 0
IsUnchosen sel = (all : List Coin) × (sel.unselected ≡ unchosen all (sel.selected))

build_selection-IsUnchosen :
    (all xs : List Coin) (sel : CoinSelection) → build_selection all xs ≡ ok sel → IsUnchosen sel
unfolding build_selection
build_selection-IsUnchosen all xs sel h = elim (Result-cases (add_amounts (pos 0) xs)) [
  | inr (bad, e) ↦ absurd (ground arith)
  | inl (s, es) ↦ elim (Result-cases (add_amounts (pos 0) (unchosen all xs))) [
    | inr (bad, e) ↦ absurd (ground arith)
    | inl (r, er) ↦
        let built : CoinSelection = record {
          selected = xs;
          unselected = unchosen all xs;
          selected_total = s;
          unselected_total = r;
        } in
        let same : built ≡ sel = ground arith in subst IsUnchosen same (all, refl)
  ]
]

pub select_for_amount-IsUnchosen :
    (coins : List Coin) (send rate : ℤ) (script : Bytes) (sel : CoinSelection) (plan : FeePlan)
    → All HasAmount coins
    → select_for_amount coins send rate script ≡ ok (sel, plan)
    → IsUnchosen sel
select_for_amount-IsUnchosen coins send rate script sel plan a h =
    let (ordered, xs, ys, eo, (e, l, hb, hp)) = IsChoice-of coins send rate script sel plan a h in
    build_selection-IsUnchosen ordered xs sel hb

-- A selection that `SelectP2QPKMaximum` returns, of coins with int64 amounts, splits them into at
-- most 22 chosen ones and the others, with the true totals, and its plan is the one that
-- `PlanP2QPKWithdrawAll` makes of the selected total and the number of the selected coins.
pub select_maximum_ok :
    (coins : List Coin) (rate : ℤ) (script : Bytes) (sel : CoinSelection) (plan : WithdrawAllPlan)
    → All HasAmount coins
    → select_maximum coins rate script ≡ ok (sel, plan)
    → IsSelection coins sel
      × (plan_withdraw_all (sel.selected_total) rate (pos (length (sel.selected))) script ≡ ok plan)
unfolding select_maximum
select_maximum_ok coins rate script sel plan a h = elim (Result-cases (ordered_coins coins)) [
  | inr (bad, e) ↦ absurd (ground arith)
  | inl (ordered, eo) ↦
      let n = input_limit ordered in
      let el = length-take n ordered in
      let en : length (take n ordered) ≡ n = ground (arith, el) in
      elim (Result-cases (build_selection ordered (take n ordered))) [
        | inr (bad, e) ↦ absurd (ground arith)
        | inl (s, eb) ↦
            elim (Result-cases (plan_withdraw_all (s.selected_total) rate (pos n) script)) [
              | inr (bad, e) ↦ absurd (ground arith)
              | inl (p, ep) ↦
                  let same : s ≡ sel = ground arith in
                  let (selection, es, et) =
                    chosen-IsSelection coins ordered (take n ordered) (drop n ordered) sel a eo
                      (inl (take-append-drop n ordered)) (ground (arith, el)) (ground arith) in
                  let count : length (sel.selected) ≡ n =
                    ap (λ (m : List Coin). length m) es ∙ en in
                  (selection, ground (arith, count))
            ]
      ]
]
