-- ===== src/TxBuilder/Withdraw.antt =====
-- txbuilder.go: what `PlanP2QPKWithdrawAll` and `CalcChange` amount to.
use symbiont_wallet.Base.{
  ℕ, ◌+◌, ◌-◌, ◌<◌, ◌≡◌, refl, false, inl, inr, [], ◌∷◌, ok, err, Result-cases, sym, ap, subst,
  arith, if◌then◌else◌, ltb,
}
use symbiont_wallet.Base.Bytes.{Bytes}
use symbiont_wallet.Base.Int64.{ℤ, pos, negsuc, sub64, wrap64, leb_ℤ, half_word, IsInt64, sub64_pos}
use symbiont_wallet.TxBuilder.Types.{WithdrawAllPlan, total_overflows, insufficient_funds}
use symbiont_wallet.TxBuilder.Size.{p2qpk_virtual_size}
use symbiont_wallet.TxBuilder.Fees.{
  max_int64, fee_for_rate, destination, plan_withdraw_all, calc_change,
}
use symbiont_wallet.TxBuilder.Rate.{IsFee, fee_for_rate_ok, p2qpk_virtual_size-IsInt64}
use symbiont_wallet.TxBuilder.Plan.{minimum_of}

-- What `PlanP2QPKWithdrawAll` promises: amount and fee are the total, and the fee is the minimum
-- for the size of the one-output transaction.
abbrev pub IsWithdrawn : ℤ → ℤ → ℤ → Bytes → WithdrawAllPlan → Type 0
IsWithdrawn total rate count script p =
    (s f : ℕ) × (p.send_sats ≡ pos s)
    × (p.fee_sats ≡ pos f)
    × (total ≡ pos (s + f))
    × (0 < s)
    × (p2qpk_virtual_size count (destination (pos 0) script ∷ []) ≡ ok (p.vsize))
    × IsFee rate (p.vsize) (pos f)

withdraw_inversion :
    (total rate count : ℤ) (script : Bytes) (p : WithdrawAllPlan)
    → plan_withdraw_all total rate count script ≡ ok p
    → (v f : ℤ) × (p2qpk_virtual_size count (destination (pos 0) script ∷ []) ≡ ok v)
      × (fee_for_rate rate v ≡ ok f)
      × (leb_ℤ total f ≡ false)
      × (p ≡ record { send_sats = sub64 total f; fee_sats = f; vsize = v })
unfolding plan_withdraw_all
withdraw_inversion total rate count script p h =
    elim (Result-cases (p2qpk_virtual_size count (destination (pos 0) script ∷ []))) [
      | inr (bad, e) ↦ absurd (ground arith)
      | inl (v, ev) ↦ elim (Result-cases (fee_for_rate rate v)) [
        | inr (bad, e) ↦ absurd (ground arith)
        | inl (f, ef) ↦ (v, f, ev, ef, ground arith, ground arith)
      ]
    ]

-- A plan that `PlanP2QPKWithdrawAll` returns, for an int64 total and rate, sends a positive amount,
-- pays the rounded-up minimum for its one-output size, and leaves nothing over.
pub plan_withdraw_all_ok :
    (total rate count : ℤ) (script : Bytes) (p : WithdrawAllPlan)
    → IsInt64 total
    → IsInt64 rate
    → plan_withdraw_all total rate count script ≡ ok p
    → IsWithdrawn total rate count script p
plan_withdraw_all_ok (negsuc t) rate count script p ht hr h =
    absurd (unfold plan_withdraw_all in ground arith)
plan_withdraw_all_ok (pos t) rate count script p ht hr h =
    let (v, f, ev, ef, more, e) = withdraw_inversion (pos t) rate count script p h in
    let fee = fee_for_rate_ok rate v f hr (p2qpk_virtual_size-IsInt64 count _ v ev) ef in
    let (n, en) = minimum_of rate v f fee in
    let planned : WithdrawAllPlan = record {
      send_sats = pos (t - n);
      fee_sats = pos n;
      vsize = v;
    } in
    let same : p ≡ planned = ground (arith, sub64_pos t n) in
    subst (IsWithdrawn (pos t) rate count script) (sym same)
      (t - n, n, refl, refl, ap pos (ground arith), ground arith, ev, subst (IsFee rate v) en fee)

-- For non-negative int64 arguments and a positive amount, `CalcChange` is what is left of the coin,
-- and it refuses exactly a need that overflows and a need that the coin does not cover.
pub calc_change_exact :
    (u s f : ℕ)
    → 0 < s
    → u < half_word
    → s < half_word
    → f < half_word
    → calc_change (pos u) (pos s) (pos f) ≡ (
        if ltb max_int64 (s + f)
        then err total_overflows
        else if ltb u (s + f)
        then err insufficient_funds
        else ok (pos (u - (s + f))))
unfolding calc_change sub64 wrap64
calc_change_exact u s f s0 hu hs hf = ground arith
