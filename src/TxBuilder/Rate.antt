-- ===== src/TxBuilder/Rate.antt =====
-- txbuilder.go: what `FeeForRate` returns.
use symbiont_wallet.Base.{
  ℕ, ◌+◌, ◌-◌, ◌*◌, ◌/◌, ◌≤◌, ◌<◌, ◌≡◌, refl, inl, inr, List, length, ok, err, Result-cases, sym,
  subst, arith, if◌then◌else◌, ltb, leb,
}
use native.Mathlib.Nat.{le-div_iff_mul-le, div-le_self}
use symbiont_wallet.Base.Int64.{
  ℤ, to_u64, pos, negsuc, add64, mul64, div64, wrap64-IsInt64, half_word, IsInt64, add64_pos,
  mul64_pos, div64_pos,
}
use symbiont_wallet.TxBuilder.Types.{TxOutput, fee_overflows}
use symbiont_wallet.TxBuilder.Compact.{compact_size_len}
use symbiont_wallet.TxBuilder.Size.{add_outputs, witness_per_input, p2qpk_virtual_size}
use symbiont_wallet.TxBuilder.Fees.{max_int64, fee_for_rate}

-- The guard of `FeeForRate` is exact: it lets a product pass when the sum fits, and no other.
guard_exact : (r v : ℕ) → 0 < v → ltb ((max_int64 - 999) / v) r ≡ ltb (max_int64 - 999) (r * v)
guard_exact r v v0 =
    let (only_if, if') = le-div_iff_mul-le {k = v} {x = r} {y = max_int64 - 999} v0 in ground arith

-- For positive arguments, `FeeForRate` is rate * vsize / 1000 rounded up, and fails exactly when
-- rate * vsize + 999 is not an int64.
pub fee_for_rate_exact :
    (r v : ℕ)
    → 0 < r
    → 0 < v
    → r < half_word
    → v < half_word
    → fee_for_rate (pos r) (pos v)
      ≡ (if leb (r * v + 999) max_int64 then ok (pos ((r * v + 999) / 1000)) else err fee_overflows)
unfolding fee_for_rate
fee_for_rate_exact r v r0 v0 hr hv = ground (
  arith,
  guard_exact r v v0,
  div64_pos (max_int64 - 999) v (omega (arith, div-le_self (max_int64 - 999) v)),
  mul64_pos r v,
  add64_pos (r * v) 999,
  div64_pos (r * v + 999) 1000,
)

div64-IsInt64 : (a b : ℤ) → IsInt64 (div64 a b)
unfolding div64
div64-IsInt64 (pos a) (pos b) = wrap64-IsInt64 _
div64-IsInt64 (pos a) (negsuc b) = wrap64-IsInt64 _
div64-IsInt64 (negsuc a) (pos b) = wrap64-IsInt64 _
div64-IsInt64 (negsuc a) (negsuc b) = wrap64-IsInt64 _

vsize_inversion :
    (count : ℤ) (outputs : List TxOutput) (v : ℤ)
    → p2qpk_virtual_size count outputs ≡ ok v
    → (weight : ℤ) × (v ≡ div64 weight (pos 4))
unfolding p2qpk_virtual_size
vsize_inversion count outputs v h =
    let fixed =
      add64 (add64 (pos (4 + compact_size_len (to_u64 count))) (mul64 count (pos 41)))
        (pos (compact_size_len (length outputs) + 4)) in
    elim (Result-cases (add_outputs fixed outputs)) [
      | inl (stripped, e) ↦ (
        add64 (add64 (mul64 stripped (pos 4)) (add64 (pos 2) (mul64 count witness_per_input)))
            (pos 3),
        ground arith,
      )
      | inr (bad, e) ↦ absurd (ground arith)
    ]

pub p2qpk_virtual_size-IsInt64 :
    (count : ℤ) (outputs : List TxOutput) (v : ℤ)
    → p2qpk_virtual_size count outputs ≡ ok v
    → IsInt64 v
p2qpk_virtual_size-IsInt64 count outputs v h =
    let (weight, e) = vsize_inversion count outputs v h in
    subst IsInt64 (sym e) (div64-IsInt64 weight (pos 4))

-- What a fee is when `FeeForRate` gives one.
abbrev pub IsFee : ℤ → ℤ → ℤ → Type 0
IsFee rate vsize fee =
    (r v : ℕ) × (rate ≡ pos r)
    × (vsize ≡ pos v)
    × (0 < r)
    × (0 < v)
    × (fee ≡ pos ((r * v + 999) / 1000))
    × (r * v + 999 ≤ max_int64)

fee_guards : (r v : ℕ) (fee : ℤ) → fee_for_rate (pos r) (pos v) ≡ ok fee → (0 < r) × (0 < v)
unfolding fee_for_rate
fee_guards r v fee h = ground arith

pub fee_for_rate_ok :
    (rate vsize fee : ℤ)
    → IsInt64 rate
    → IsInt64 vsize
    → fee_for_rate rate vsize ≡ ok fee
    → IsFee rate vsize fee
fee_for_rate_ok (pos r) (pos v) fee hr hv h =
    let (r0, v0) = fee_guards r v fee h in
    let e = fee_for_rate_exact r v r0 v0 hr hv in
    (r, v, refl, refl, r0, v0, ground arith, ground arith)
fee_for_rate_ok (pos r) (negsuc v) fee hr hv h = absurd (unfold fee_for_rate in ground arith)
fee_for_rate_ok (negsuc r) vsize fee hr hv h = absurd (unfold fee_for_rate in ground arith)
