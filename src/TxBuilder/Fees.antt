-- ===== src/TxBuilder/Fees.antt =====
-- txbuilder.go: `FeeForRate`, `PlanP2QPKFee`, `PlanP2QPKWithdrawAll` and `CalcChange`.
use symbiont_wallet.Base.{
  ℕ, ◌-◌, true, false, ◌||◌, [], ◌∷◌, length, ◌==◌, replicate, Result, ok, fail_if, ◌>>◌, ◌>>=◌,
  if◌then◌else◌,
}
use symbiont_wallet.Base.Bytes.{Bytes}
use symbiont_wallet.Base.Int64.{ℤ, pos, add64, sub64, mul64, div64, ltb_ℤ, leb_ℤ}
use symbiont_wallet.TxBuilder.Types.{
  TxOutput, FeePlan, WithdrawAllPlan, Error, rate_not_positive, vsize_not_positive, fee_overflows,
  total_not_positive, not_covered, script_empty, insufficient_funds, send_not_positive,
  fee_negative, total_overflows,
}
use symbiont_wallet.TxBuilder.Size.{p2qpk_virtual_size}

-- `math.MaxInt64`.
abbrev pub max_int64 : ℕ
max_int64 = 9223372036854775807

-- `FeeForRate`.
unfoldable pub fee_for_rate : ℤ → ℤ → Result Error ℤ
fee_for_rate rate vsize =
    fail_if (leb_ℤ rate (pos 0)) rate_not_positive
    >> fail_if (leb_ℤ vsize (pos 0)) vsize_not_positive
    >> fail_if (ltb_ℤ (div64 (pos (max_int64 - 999)) vsize) rate) fee_overflows
    >> ok (div64 (add64 (mul64 rate vsize) (pos 999)) (pos 1000))

-- The outputs of the two shapes of a plan.
abbrev pub destination : ℤ → Bytes → TxOutput
destination send script = record { amount = send; script = script }

abbrev pub change_output : TxOutput
change_output = record { amount = pos 0; script = replicate 34 0 }

-- The two ways out of `PlanP2QPKFee`, once both minimum fees are known.
abbrev pub choose_change : ℤ → ℤ → ℤ → ℤ → FeePlan
choose_change remainder change_fee change_vsize vsize =
    if ltb_ℤ change_fee remainder
    then record {
      fee_sats = change_fee;
      change_sats = sub64 remainder change_fee;
      vsize = change_vsize;
      include_change = true;
    }
    else record { fee_sats = remainder; change_sats = pos 0; vsize = vsize; include_change = false }

-- `PlanP2QPKFee`.
unfoldable pub plan_fee : ℤ → ℤ → ℤ → ℤ → Bytes → Result Error FeePlan
unfolding fee_for_rate
plan_fee total send rate count script =
    let remainder = sub64 total send in
    fail_if (leb_ℤ total (pos 0)) total_not_positive
    >> fail_if (leb_ℤ send (pos 0) || ltb_ℤ total send) not_covered
    >> fail_if (length script == 0) script_empty
    >> (p2qpk_virtual_size count (destination send script ∷ []) >>= λ vsize.
        fee_for_rate rate vsize >>= λ minimum.
        fail_if (ltb_ℤ remainder minimum) insufficient_funds
        >> (p2qpk_virtual_size count (destination send script ∷ change_output ∷ [])
            >>= λ change_vsize. fee_for_rate rate change_vsize >>= λ change_fee.
                ok (choose_change remainder change_fee change_vsize vsize)))

-- `PlanP2QPKWithdrawAll`.
unfoldable pub plan_withdraw_all : ℤ → ℤ → ℤ → Bytes → Result Error WithdrawAllPlan
unfolding fee_for_rate
plan_withdraw_all total rate count script =
    fail_if (leb_ℤ total (pos 0)) total_not_positive
    >> fail_if (length script == 0) script_empty
    >> (p2qpk_virtual_size count (destination (pos 0) script ∷ []) >>= λ vsize.
        fee_for_rate rate vsize >>= λ fee.
        fail_if (leb_ℤ total fee) insufficient_funds
        >> ok (record { send_sats = sub64 total fee; fee_sats = fee; vsize = vsize }))

-- `CalcChange`.
unfoldable pub calc_change : ℤ → ℤ → ℤ → Result Error ℤ
calc_change utxo send fee =
    let change = sub64 (sub64 utxo send) fee in
    fail_if (leb_ℤ send (pos 0)) send_not_positive
    >> fail_if (ltb_ℤ fee (pos 0)) fee_negative
    >> fail_if (ltb_ℤ (sub64 (pos max_int64) send) fee) total_overflows
    >> fail_if (ltb_ℤ change (pos 0)) insufficient_funds
    >> ok change
