-- ===== src/Amounts/Bounds.antt =====
-- txbuilder.go and balance.go: what the parsers return fits an int64.
use symbiont_wallet.Base.{
  ◌+◌, ◌-◌, ◌*◌, ◌≡◌, subst, inl, inr, Option, none, some, ◌++◌, replicate, length, ok,
  Result-cases, Option-cases, arith, if◌then◌else◌, ◌∷◌, [], ◌==◌,
}
use symbiont_wallet.Base.Bytes.{Bytes}
use symbiont_wallet.Base.Int64.{
  ℤ, pos, pos_part, neg_part, sub_ℕ, IsInt64, add64, mul64, wrap64-IsInt64,
}
use symbiont_wallet.Base.ParseInt.{split_dot, trim_space}
use symbiont_wallet.TxBuilder.Types.{invalid_amount, invalid_fraction}
use symbiont_wallet.Amounts.Convert.{
  satoshis_per_qoge, invalid_integer, invalid_decimals, parse_part, parse_qoge_decimal,
  parse_natural, add_fraction, qoge_to_satoshis,
}

add64-IsInt64 : (a b : ℤ) → IsInt64 (add64 a b)
unfolding add64
add64-IsInt64 a b = wrap64-IsInt64 (sub_ℕ (pos_part a + pos_part b) (neg_part a + neg_part b))

-- What is parsed is an int64.
pub parse_qoge_decimal-IsInt64 : (text : Bytes) (z : ℤ) → parse_qoge_decimal text ≡ ok z → IsInt64 z
unfolding parse_qoge_decimal
parse_qoge_decimal-IsInt64 text z h = elim (Option-cases ((split_dot text).1)) [
  | inl e ↦ absurd (ground arith)
  | inr (frac, e) ↦ elim (Result-cases (parse_part invalid_integer ((split_dot text).0))) [
    | inr (bad, eb) ↦ absurd (ground arith)
    | inl (whole, ew) ↦ elim (Result-cases (parse_part invalid_decimals frac)) [
      | inr (bad, eb) ↦ absurd (ground arith)
      | inl (value, ev) ↦
          let sum = add64 (mul64 whole (pos satoshis_per_qoge)) value in
          let same : sum ≡ z = ground arith in subst IsInt64 same (add64-IsInt64 _ value)
    ]
  ]
]

mul64-IsInt64 : (a b : ℤ) → IsInt64 (mul64 a b)
unfolding mul64
mul64-IsInt64 a b = wrap64-IsInt64 (
    sub_ℕ (pos_part a * pos_part b + neg_part a * neg_part b)
      (pos_part a * neg_part b + neg_part a * pos_part b))

add_fraction-IsInt64 :
    (sats z : ℤ) (frac : Option Bytes) → IsInt64 sats → add_fraction sats frac ≡ ok z → IsInt64 z
unfolding add_fraction
add_fraction-IsInt64 sats z none k h = let same : sats ≡ z = ground arith in subst IsInt64 same k
add_fraction-IsInt64 sats z (some frac) k h =
    elim (Result-cases
      (parse_natural invalid_fraction (frac ++ replicate (8 - length frac) b'0'))) [
        | inr (bad, e) ↦ absurd (ground arith)
        | inl (value, e) ↦
            let same : add64 sats value ≡ z = ground arith in
            subst IsInt64 same (add64-IsInt64 sats value)
      ]

pub qoge_to_satoshis-IsInt64 : (text : Bytes) (z : ℤ) → qoge_to_satoshis text ≡ ok z → IsInt64 z
unfolding qoge_to_satoshis
qoge_to_satoshis-IsInt64 text z h =
    let before = (split_dot (trim_space text)).0 in
    let whole_text = if length before == 0 then b'0' ∷ [] else before in
    elim (Result-cases (parse_natural invalid_amount whole_text)) [
      | inr (bad, e) ↦ absurd (ground arith)
      | inl (whole, e) ↦
          add_fraction-IsInt64 (mul64 whole (pos 100000000)) z ((split_dot (trim_space text)).1)
            (mul64-IsInt64 whole (pos 100000000)) (ground arith)
    ]
