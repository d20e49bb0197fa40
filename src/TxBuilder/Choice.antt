-- ===== src/TxBuilder/Choice.antt =====
-- txbuilder.go: what the two selections return.
use symbiont_wallet.Base.{
  ℕ, zero, suc, ◌+◌, ◌-◌, ◌≤◌, ◌<◌, ◌≡◌, refl, sym, ap, ◌∙◌, false, ◌⊎◌, inl, inr, some, List, [],
  ◌∷◌, ◌++◌, length, take, drop, All, All-drop, take-append-drop, length-drop, length-append, ok,
  Result-cases, arith, append_assoc,
}
use symbiont_wallet.Base.Bytes.{Bytes}
use symbiont_wallet.Base.Int64.{
  ℤ, pos, negsuc, pos_part, IsInt64, half_word, add64, sub64, leb_ℤ, ltb_ℤ, add64_pos, sub64_pos,
}
use symbiont_wallet.TxBuilder.Types.{Coin, CoinSelection, FeePlan}
use symbiont_wallet.TxBuilder.Size.{safe_max_inputs}
use symbiont_wallet.TxBuilder.Fees.{max_int64, plan_fee}
use symbiont_wallet.TxBuilder.Coins.{
  add_amounts, unchosen, build_selection, try_prefixes, try_largest,
}
use symbiont_wallet.TxBuilder.Ordering.{IsPositive}

-- What the coins are worth.
abbrev pub sum_amounts : List Coin → ℕ
sum_amounts [] = 0
sum_amounts (c ∷ cs) = pos_part (c.amount_sats) + sum_amounts cs

abbrev pub IsAmount : Coin → Type 0
IsAmount c = IsInt64 (c.amount_sats) × IsPositive c

-- The guard of a sum lets it pass exactly when it fits.
pub guard_passes :
    (c : Coin) (t : ℕ)
    → IsAmount c
    → t < half_word
    → ltb_ℤ (sub64 (pos max_int64) (c.amount_sats)) (pos t) ≡ false
    → (t + pos_part (c.amount_sats) < half_word)
      × (add64 (pos t) (c.amount_sats) ≡ pos (t + pos_part (c.amount_sats)))
guard_passes c t (hi, hp) ht h = amount (c.amount_sats) hi hp h
  where
    amount :
        (a : ℤ)
        → IsInt64 a
        → leb_ℤ a (pos 0) ≡ false
        → ltb_ℤ (sub64 (pos max_int64) a) (pos t) ≡ false
        → (t + pos_part a < half_word) × (add64 (pos t) a ≡ pos (t + pos_part a))
    amount (pos n) hi hp h = ground (arith, sub64_pos max_int64 n, add64_pos t n)
    amount (negsuc n) hi hp h = absurd (ground arith)

-- A guarded sum that succeeds is the sum.
add_amounts_ok :
    (t : ℕ) (cs : List Coin) (s : ℤ)
    → t < half_word
    → All IsAmount cs
    → add_amounts (pos t) cs ≡ ok s
    → (s ≡ pos (t + sum_amounts cs)) × (t + sum_amounts cs < half_word)
unfolding add_amounts
add_amounts_ok t [] s ht hs h = ground arith
add_amounts_ok t (c ∷ cs) s ht (hc, hs) h =
    let fits : ltb_ℤ (sub64 (pos max_int64) (c.amount_sats)) (pos t) ≡ false = ground arith in
    let (bound, e) = guard_passes c t hc ht fits in
    let (total, small) =
      add_amounts_ok (t + pos_part (c.amount_sats)) cs s bound hs (ground (arith, e)) in
    (ground (arith, total), omega (arith, small))

pub sum_amounts-append :
    (xs ys : List Coin) → sum_amounts (xs ++ ys) ≡ sum_amounts xs + sum_amounts ys
sum_amounts-append [] ys = omega arith
sum_amounts-append (x ∷ xs) ys = omega (arith, sum_amounts-append xs ys)

-- A selection holds the chosen coins and the others, with the sums of both.
abbrev pub IsSplit : List Coin → List Coin → CoinSelection → Type 0
IsSplit xs ys sel =
    (sel.selected ≡ xs)
    × (sel.unselected ≡ ys)
    × (sel.selected_total ≡ pos (sum_amounts xs))
    × (sel.unselected_total ≡ pos (sum_amounts ys))

pub build_selection_ok :
    (all xs ys : List Coin) (sel : CoinSelection)
    → unchosen all xs ≡ ys
    → All IsAmount xs
    → All IsAmount ys
    → build_selection all xs ≡ ok sel
    → IsSplit xs ys sel
unfolding build_selection
build_selection_ok all xs ys sel e hx hy h = elim (Result-cases (add_amounts (pos 0) xs)) [
  | inr (bad, eb) ↦ absurd (ground arith)
  | inl (s, es) ↦ elim (Result-cases (add_amounts (pos 0) ys)) [
    | inr (bad, eb) ↦ absurd (ground arith)
    | inl (u, eu) ↦
        let (total, _) = add_amounts_ok 0 xs s (omega arith) hx es in
        let (other, _) = add_amounts_ok 0 ys u (omega arith) hy eu in ground arith
  ]
]

-- A choice of some of the ordered coins, in front of the others or behind them, with the plan that
-- their sum pays for.
abbrev pub IsChoice :
    List Coin → ℤ → ℤ → Bytes → CoinSelection → FeePlan → List Coin → List Coin → Type 0
IsChoice ordered send rate script sel plan xs ys =
    ((xs ++ ys ≡ ordered) ⊎ (ys ++ xs ≡ ordered))
    × (length xs ≤ safe_max_inputs)
    × (build_selection ordered xs ≡ ok sel)
    × (plan_fee (pos (sum_amounts xs)) send rate (pos (length xs)) script ≡ ok plan)

length_one_more : (xs : List Coin) (c : Coin) → length (xs ++ (c ∷ [])) ≡ suc (length xs)
length_one_more xs c = omega (arith, length-append xs (c ∷ []))

sum_one_more :
    (xs : List Coin) (c : Coin)
    → sum_amounts (xs ++ (c ∷ [])) ≡ sum_amounts xs + pos_part (c.amount_sats)
sum_one_more xs c = omega (arith, sum_amounts-append xs (c ∷ []))

take_one_more :
    (xs : List Coin) (c : Coin) (rest : List Coin)
    → take (suc (length xs)) (xs ++ (c ∷ rest)) ≡ xs ++ (c ∷ [])
take_one_more [] c rest = refl
take_one_more (x ∷ xs) c rest = ap (λ (l : List Coin). x ∷ l) (take_one_more xs c rest)

module _ (send rate : ℤ) (script : Bytes) (ordered : List Coin) (sel : CoinSelection)
    (plan : FeePlan) where
  pub try_prefixes_ok :
      (turns : ℕ) (done rest : List Coin)
      → done ++ rest ≡ ordered
      → length done + turns ≤ safe_max_inputs
      → All IsAmount rest
      → sum_amounts done < half_word
      → try_prefixes ordered send rate script turns (length done) (pos (sum_amounts done)) rest
        ≡ ok (some (sel, plan))
      → (xs ys : List Coin) × IsChoice ordered send rate script sel plan xs ys
  unfolding try_prefixes
  try_prefixes_ok zero done rest e l a s h = absurd (ground arith)
  try_prefixes_ok (suc turns) done [] e l a s h = absurd (ground arith)
  try_prefixes_ok (suc turns) done (c ∷ rest) e l (ac, as') s h =
      let fits : ltb_ℤ (sub64 (pos max_int64) (c.amount_sats)) (pos (sum_amounts done)) ≡ false =
        ground arith in
      let (bound, et) = guard_passes c (sum_amounts done) ac s fits in
      let et' : add64 (pos (sum_amounts done)) (c.amount_sats)
          ≡ pos (sum_amounts (done ++ (c ∷ []))) =
        et ∙ ap pos (sym (sum_one_more done c)) in
      let el = length_one_more done c in
      let e' : (done ++ (c ∷ [])) ++ rest ≡ ordered = append_assoc done (c ∷ []) rest ∙ e in
      let ek : take (suc (length done)) ordered ≡ done ++ (c ∷ []) =
        ap (λ (m : List Coin). take (suc (length done)) m) (sym e) ∙ take_one_more done c rest in
      let more =
        try_prefixes_ok turns (done ++ (c ∷ [])) rest e' (omega (arith, el)) as'
          (omega (arith, bound, sum_one_more done c)) in
      elim (Result-cases (
        plan_fee (pos (sum_amounts (done ++ (c ∷ [])))) send rate (pos (length (done ++ (c ∷ []))))
          script)) [
            | inl (p, ep) ↦ elim (Result-cases (build_selection ordered (done ++ (c ∷ [])))) [
              | inl (b, eb) ↦ (
                done ++ (c ∷ []),
                rest,
                (
                  inl e',
                  omega (arith, el),
                  ground (arith, et', el, ek),
                  ground (arith, et', el, ek),
                ),
              )
              | inr (bad, eb) ↦ absurd (ground (arith, et', el, ek))
            ]
            | inr (bad, ep) ↦ more (ground (arith, et', el, ek))
          ]

  pub try_largest_ok :
      All IsAmount ordered
      → try_largest ordered send rate script ≡ ok (some (sel, plan))
      → (xs ys : List Coin) × IsChoice ordered send rate script sel plan xs ys
  unfolding try_largest
  try_largest_ok a h =
      let k = length ordered - safe_max_inputs in
      let largest = drop k ordered in
      let al = All-drop IsAmount k ordered a in
      let el = length-drop k ordered in
      elim (Result-cases (add_amounts (pos 0) largest)) [
        | inr (bad, eb) ↦ absurd (ground arith)
        | inl (t, et) ↦
            let (total, _) = add_amounts_ok 0 largest t (omega arith) al et in
            elim (Result-cases (plan_fee t send rate (pos (length largest)) script)) [
              | inr (bad, eb) ↦ absurd (ground arith)
              | inl (p, ep) ↦ elim (Result-cases (build_selection ordered largest)) [
                | inr (bad, eb) ↦ absurd (ground arith)
                | inl (b, eb) ↦ (
                  largest,
                  take k ordered,
                  (
                    inr (take-append-drop k ordered),
                    ground (arith, el),
                    ground arith,
                    ground (arith, total),
                  ),
                )
              ]
            ]
      ]
