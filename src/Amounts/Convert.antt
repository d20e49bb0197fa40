-- ===== src/Amounts/Convert.antt =====
-- txbuilder.go and balance.go: decimal amounts of QOGE to satoshis and back, for ASCII text.
use symbiont_wallet.Base.{
  ℕ, ◌-◌, Bool, false, not, Option, none, some, [], ◌∷◌, ◌++◌, length, replicate, ltb, ◌==◌, Result,
  ok, err, fail_if, ◌>>◌, ◌>>=◌, if◌then◌else◌,
}
use symbiont_wallet.Base.Bytes.{Bytes}
use symbiont_wallet.Base.Int64.{ℤ, pos, add64, sub64, mul64, div64, ltb_ℤ, leb_ℤ}
use symbiont_wallet.Base.Decimal.{decimal_ℤ, decimal8}
use symbiont_wallet.Base.ParseInt.{parse_int, trim_space, split_dot}
use symbiont_wallet.TxBuilder.Types.{
  Error, empty_amount, invalid_amount, amount_too_large, too_many_decimals, invalid_fraction,
  rate_not_positive, invalid_rate,
}
use symbiont_wallet.TxBuilder.Fees.{max_int64}

-- `SatoshisPerQOGE`.
abbrev pub satoshis_per_qoge : ℕ
satoshis_per_qoge = 100000000

-- `strconv.ParseInt` with a check for the sign, and the error that the caller gives.
unfoldable pub parse_natural : Error → Bytes → Result Error ℤ
parse_natural e s = elim (parse_int s) [
  | none ↦ err e
  | some z ↦ fail_if (ltb_ℤ z (pos 0)) e >> ok z
]

-- What follows the dot: padded with zeros to eight digits, parsed, and added.
unfoldable pub add_fraction : ℤ → Option Bytes → Result Error ℤ
unfolding parse_natural
add_fraction sats none = ok sats
add_fraction sats (some frac) =
    fail_if (ltb 8 (length frac)) too_many_decimals
    >> (parse_natural invalid_fraction (frac ++ replicate (8 - length frac) b'0') >>= λ value.
        ok (add64 sats value))

-- `QOGEToSatoshis`.
unfoldable pub qoge_to_satoshis : Bytes → Result Error ℤ
unfolding parse_natural add_fraction
qoge_to_satoshis text =
    let s = trim_space text in
    let (before, behind) = split_dot s in
    let whole_text = if length before == 0 then b'0' ∷ [] else before in
    fail_if (length s == 0) empty_amount
    >> (parse_natural invalid_amount whole_text >>= λ whole.
        fail_if (ltb_ℤ (div64 (pos max_int64) (pos 100000000)) whole) amount_too_large
        >> add_fraction (mul64 whole (pos 100000000)) behind)

-- `strings.HasPrefix(s, "-")`.
abbrev pub is_negative : Bytes → Bool
is_negative [] = false
is_negative (c ∷ cs) = c == b'-'

-- `ParseFeeRate`.
unfoldable pub parse_fee_rate : Bytes → Result Error ℤ
unfolding qoge_to_satoshis
parse_fee_rate value =
    fail_if (is_negative (trim_space value)) rate_not_positive >> elim (qoge_to_satoshis value) [
      | err e ↦ err invalid_rate
      | ok rate ↦ fail_if (leb_ℤ rate (pos 0)) rate_not_positive >> ok rate
    ]

-- The errors of `parseQOGEDecimal`.
pub data DecimalError : Type 0 where
  not_eight_decimals invalid_integer decimal_too_large invalid_decimals : DecimalError

unfoldable pub parse_part : DecimalError → Bytes → Result DecimalError ℤ
parse_part e s = elim (parse_int s) [ none ↦ err e | some z ↦ fail_if (ltb_ℤ z (pos 0)) e >> ok z ]

-- `parseQOGEDecimal`.
unfoldable pub parse_qoge_decimal : Bytes → Result DecimalError ℤ
unfolding parse_part
parse_qoge_decimal s =
    let (before, behind) = split_dot s in
    elim behind [
      | none ↦ err not_eight_decimals
      | some frac ↦
          fail_if (not (length frac == 8)) not_eight_decimals
          >> (parse_part invalid_integer before >>= λ whole.
              fail_if (ltb_ℤ (pos 92233720368) whole) decimal_too_large
              >> (parse_part invalid_decimals frac >>= λ value.
                  ok (add64 (mul64 whole (pos satoshis_per_qoge)) value)))
    ]

-- `FormatQOGE`: the remainder is what the quotient, times the scale, leaves.
unfoldable pub format_qoge : ℤ → Bytes
format_qoge sats =
    let whole = div64 sats (pos satoshis_per_qoge) in
    let frac = sub64 sats (mul64 whole (pos satoshis_per_qoge)) in
    decimal_ℤ whole ++ (b'.' ∷ decimal8 frac)
