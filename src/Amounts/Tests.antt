-- ===== src/Amounts/Tests.antt =====
-- The conversions of amounts at concrete inputs.
use symbiont_wallet.Base.{◌≡◌, refl, ok, arith}
use symbiont_wallet.Base.Bytes.{codes}
use symbiont_wallet.Base.Int64.{pos, negsuc, add64, mul64, div64, wrap64}
use symbiont_wallet.Base.ParseInt.{
  digits_from, parse_digits, parse_int, trim_left, trim_right, trim_space, split_dot,
}
use symbiont_wallet.Amounts.Convert.{
  parse_natural, add_fraction, qoge_to_satoshis, parse_part, parse_qoge_decimal, format_qoge,
}
use symbiont_wallet.Amounts.RoundTrip.{parse_qoge_decimal-format_qoge, qoge_to_satoshis-format_qoge}

qoge_to_satoshis-format_qoge_example :
    qoge_to_satoshis (format_qoge (pos 123456789)) ≡ ok (pos 123456789)
qoge_to_satoshis-format_qoge_example = qoge_to_satoshis-format_qoge 123456789 (omega arith)

parse_qoge_decimal-format_qoge_example :
    parse_qoge_decimal (format_qoge (pos 123456789)) ≡ ok (pos 123456789)
parse_qoge_decimal-format_qoge_example = parse_qoge_decimal-format_qoge 123456789 (omega arith)

-- The whole part passes its check, and the sum with the fraction wraps.
too_large_wraps : qoge_to_satoshis (codes "92233720368.99999999") ≡ ok (negsuc 9223372036809551616)
unfolding qoge_to_satoshis parse_natural add_fraction parse_int parse_digits digits_from trim_space
    trim_left trim_right split_dot add64 mul64 div64 wrap64
too_large_wraps = refl

too_large_wraps_too :
    parse_qoge_decimal (codes "92233720368.99999999") ≡ ok (negsuc 9223372036809551616)
unfolding parse_qoge_decimal parse_part parse_int parse_digits digits_from split_dot add64 mul64
    div64 wrap64
too_large_wraps_too = refl

-- A minus sign in front of a zero is lost.
minus_zero_accepted : qoge_to_satoshis (codes "-0.5") ≡ ok (pos 50000000)
unfolding qoge_to_satoshis parse_natural add_fraction parse_int parse_digits digits_from trim_space
    trim_left trim_right split_dot add64 mul64 div64 wrap64
minus_zero_accepted = refl

signed_fraction_accepted : qoge_to_satoshis (codes "1.+5") ≡ ok (pos 105000000)
unfolding qoge_to_satoshis parse_natural add_fraction parse_int parse_digits digits_from trim_space
    trim_left trim_right split_dot add64 mul64 div64 wrap64
signed_fraction_accepted = refl
