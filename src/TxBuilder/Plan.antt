-- ===== src/TxBuilder/Plan.antt =====
-- txbuilder.go: what `PlanP2QPKFee` amounts to.
use symbiont_wallet.Base.{
  ℕ, ◌+◌, ◌-◌, ◌*◌, ◌/◌, ◌≤◌, ◌<◌, ◌≡◌, refl, true, false, ◌⊎◌, inl, inr, [], ◌∷◌, ok, Result-cases,
  Bool-cases, sym, ap, subst, arith, ltb,
}
use symbiont_wallet.Base.Bytes.{Bytes}
use symbiont_wallet.Base.Int64.{ℤ, pos, negsuc, sub64, ltb_ℤ, leb_ℤ, half_word, IsInt64, sub64_pos}
use symbiont_wallet.TxBuilder.Types.{FeePlan}
use symbiont_wallet.TxBuilder.Size.{p2qpk_virtual_size}
use symbiont_wallet.TxBuilder.Fees.{
  fee_for_rate, destination, change_output, choose_change, plan_fee,
}
use symbiont_wallet.TxBuilder.Rate.{IsFee, fee_for_rate_ok, p2qpk_virtual_size-IsInt64}

-- What `PlanP2QPKFee` promises. The money is all accounted for. Either there is change, the fee is
-- the minimum of the two-output shape, and `VSize` is that shape's; or there is none, the fee is at
-- least the minimum of the one-output shape, and `VSize` is that shape's.
abbrev pub IsPlanned : ℤ → ℤ → ℤ → ℤ → Bytes → FeePlan → Type 0
IsPlanned total send rate count script p =
    (s f c : ℕ) × (send ≡ pos s)
    × (p.fee_sats ≡ pos f)
    × (p.change_sats ≡ pos c)
    × (0 < s)
    × (total ≡ pos (s + f + c))
    × (((p.include_change ≡ true)
          × (0 < c)
          × (p2qpk_virtual_size count (destination send script ∷ change_output ∷ []) ≡ ok (p.vsize))
          × IsFee rate (p.vsize) (pos f))
        ⊎ ((p.include_change ≡ false)
            × (c ≡ 0)
            × (p2qpk_virtual_size count (destination send script ∷ []) ≡ ok (p.vsize))
            × ((m : ℕ) × IsFee rate (p.vsize) (pos m) × (m ≤ f))))

plan_inversion :
    (total send rate count : ℤ) (script : Bytes) (p : FeePlan)
    → plan_fee total send rate count script ≡ ok p
    → (v m cv cf : ℤ) × (leb_ℤ total (pos 0) ≡ false)
      × (leb_ℤ send (pos 0) ≡ false)
      × (ltb_ℤ total send ≡ false)
      × (p2qpk_virtual_size count (destination send script ∷ []) ≡ ok v)
      × (fee_for_rate rate v ≡ ok m)
      × (ltb_ℤ (sub64 total send) m ≡ false)
      × (p2qpk_virtual_size count (destination send script ∷ change_output ∷ []) ≡ ok cv)
      × (fee_for_rate rate cv ≡ ok cf)
      × (p ≡ choose_change (sub64 total send) cf cv v)
unfolding plan_fee
plan_inversion total send rate count script p h =
    elim (Result-cases (p2qpk_virtual_size count (destination send script ∷ []))) [
      | inr (bad, e) ↦ absurd (ground arith)
      | inl (v, ev) ↦ elim (Result-cases (fee_for_rate rate v)) [
        | inr (bad, e) ↦ absurd (ground arith)
        | inl (m, em) ↦
            elim (Result-cases
              (p2qpk_virtual_size count (destination send script ∷ change_output ∷ []))) [
                | inr (bad, e) ↦ absurd (ground arith)
                | inl (cv, ecv) ↦ elim (Result-cases (fee_for_rate rate cv)) [
                  | inr (bad, e) ↦ absurd (ground arith)
                  | inl (cf, ecf) ↦ (
                    v,
                    m,
                    cv,
                    cf,
                    ground arith,
                    ground arith,
                    ground arith,
                    ev,
                    em,
                    ground arith,
                    ecv,
                    ecf,
                    ground arith,
                  )
                ]
              ]
      ]
    ]

-- The two ways out, once everything is known to be non-negative.
chosen :
    (t s m cf : ℕ) (rate count v cv : ℤ) (script : Bytes) (p : FeePlan)
    → 0 < s
    → s ≤ t
    → m ≤ t - s
    → p2qpk_virtual_size count (destination (pos s) script ∷ []) ≡ ok v
    → IsFee rate v (pos m)
    → p2qpk_virtual_size count (destination (pos s) script ∷ change_output ∷ []) ≡ ok cv
    → IsFee rate cv (pos cf)
    → p ≡ choose_change (pos (t - s)) (pos cf) cv v
    → t - s < half_word
    → IsPlanned (pos t) (pos s) rate count script p
chosen t s m cf rate count v cv script p s0 st enough ev fee ecv change_fee e small =
    elim (Bool-cases (ltb cf (t - s))) [
      | inl gives ↦
          let with_change : FeePlan = record {
            fee_sats = pos cf;
            change_sats = pos (t - s - cf);
            vsize = cv;
            include_change = true;
          } in
          let same : p ≡ with_change = ground (arith, sub64_pos (t - s) cf) in
          subst (IsPlanned (pos t) (pos s) rate count script) (sym same) (
            s,
            cf,
            t - s - cf,
            refl,
            refl,
            refl,
            s0,
            ap pos (ground arith),
            inl (refl, ground arith, ecv, change_fee),
          )
      | inr keeps ↦
          let without : FeePlan = record {
            fee_sats = pos (t - s);
            change_sats = pos 0;
            vsize = v;
            include_change = false;
          } in
          let same : p ≡ without = ground arith in
          subst (IsPlanned (pos t) (pos s) rate count script) (sym same) (
            s,
            t - s,
            0,
            refl,
            refl,
            refl,
            s0,
            ap pos (omega arith),
            inr (refl, refl, ev, (m, fee, enough)),
          )
    ]

pub minimum_of : (rate v m : ℤ) → IsFee rate v m → (n : ℕ) × (m ≡ pos n)
minimum_of rate v m (r, w, _, _, _, _, e, _) = ((r * w + 999) / 1000, e)

-- A plan that `PlanP2QPKFee` returns, for int64 arguments, spends the total exactly: amount, fee
-- and change are non-negative and add up to it. With change, the fee is the rounded-up minimum for
-- the size of the two-output transaction; without, the fee is what is left, and at least the
-- minimum for the size of the one-output transaction.
pub plan_fee_ok :
    (total send rate count : ℤ) (script : Bytes) (p : FeePlan)
    → IsInt64 total
    → IsInt64 send
    → IsInt64 rate
    → plan_fee total send rate count script ≡ ok p
    → IsPlanned total send rate count script p
plan_fee_ok (negsuc t) send rate count script p ht hs hr h =
    absurd (unfold plan_fee in ground arith)
plan_fee_ok (pos t) (negsuc s) rate count script p ht hs hr h =
    absurd (unfold plan_fee in ground arith)
plan_fee_ok (pos t) (pos s) rate count script p ht hs hr h =
    let (v, m, cv, cf, t0, s0, covered, ev, em, enough, ecv, ecf, e) =
      plan_inversion (pos t) (pos s) rate count script p h in
    let fee = fee_for_rate_ok rate v m hr (p2qpk_virtual_size-IsInt64 count _ v ev) em in
    let change_fee =
      fee_for_rate_ok rate cv cf hr (p2qpk_virtual_size-IsInt64 count _ cv ecv) ecf in
    let (mn, em') = minimum_of rate v m fee in
    let (cn, ec') = minimum_of rate cv cf change_fee in
    let left = sub64_pos t s in
    chosen t s mn cn rate count v cv script p (ground arith) (ground arith) (ground (arith, left))
      ev (subst (IsFee rate v) em' fee) ecv (subst (IsFee rate cv) ec' change_fee)
      (ground (arith, left)) (omega arith)
