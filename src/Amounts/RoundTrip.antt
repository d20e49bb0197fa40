-- ===== src/Amounts/RoundTrip.antt =====
-- txbuilder.go and balance.go: what `FormatQOGE` writes is read back by both parsers.
use symbiont_wallet.Base.{
  ℕ, ◌-◌, ◌*◌, ◌/◌, ◌%◌, ◌<◌, ◌≡◌, refl, ap, ◌∙◌, some, ◌∷◌, ◌++◌, length, All, All-append,
  length-append, append-nil, ok, arith,
}
use symbiont_wallet.Base.Bytes.{Bytes}
use symbiont_wallet.Base.Int64.{
  pos, half_word, add64, mul64, add64_pos, sub64_pos, mul64_pos, div64_pos,
}
use symbiont_wallet.Base.Decimal.{decimal, decimal_ℤ, decimal8, pad_zeros}
use symbiont_wallet.Base.ParseInt.{parse_int}
use symbiont_wallet.Base.Digits.{
  IsSolid, decimal-IsDigit, length-decimal, length-decimal_pos, pad_zeros-IsDigit, length-pad_zeros,
  parse_int-decimal, parse_int-pad_zeros, trim_space-IsSolid, digits-IsSolid, split_dot-digits,
}
use symbiont_wallet.TxBuilder.Fees.{max_int64}
use symbiont_wallet.Amounts.Convert.{
  parse_natural, add_fraction, qoge_to_satoshis, parse_part, parse_qoge_decimal, format_qoge,
}

-- The text of an amount that is not negative.
abbrev whole_text : ℕ → Bytes
whole_text n = decimal (n / 100000000)

abbrev frac_text : ℕ → Bytes
frac_text n = pad_zeros 8 (decimal (n % 100000000))

the_rest : (n : ℕ) → n - n / 100000000 * 100000000 ≡ n % 100000000
the_rest n = omega arith

format_qoge_pos :
    (n : ℕ) → n < half_word → format_qoge (pos n) ≡ whole_text n ++ (b'.' ∷ frac_text n)
unfolding format_qoge decimal_ℤ decimal8
format_qoge_pos n h =
    let w = n / 100000000 in
    ground (
      arith,
      div64_pos n 100000000 (omega arith),
      mul64_pos w 100000000 (omega arith),
      sub64_pos n (w * 100000000) h (omega arith),
      the_rest n,
    )

length-frac_text : (n : ℕ) → length (frac_text n) ≡ 8
length-frac_text n =
    length-pad_zeros 8 (decimal (n % 100000000)) (length-decimal 7 (n % 100000000) (omega arith))

format_qoge-IsSolid : (n : ℕ) → All IsSolid (whole_text n ++ (b'.' ∷ frac_text n))
format_qoge-IsSolid n =
    All-append IsSolid (whole_text n) (b'.' ∷ frac_text n)
      (digits-IsSolid (whole_text n) (decimal-IsDigit (n / 100000000)))
      (
        refl,
        digits-IsSolid (frac_text n)
            (pad_zeros-IsDigit 8 (decimal (n % 100000000)) (decimal-IsDigit (n % 100000000))),
      )

parse_whole : (n : ℕ) → n < half_word → parse_int (whole_text n) ≡ some (pos (n / 100000000))
parse_whole n h = parse_int-decimal (n / 100000000) (omega arith)

parse_frac : (n : ℕ) → parse_int (frac_text n) ≡ some (pos (n % 100000000))
parse_frac n =
    parse_int-pad_zeros 8 (n % 100000000) (omega arith)
      (length-decimal 7 (n % 100000000) (omega arith)) (omega arith)

the_sum :
    (n : ℕ)
    → n < half_word
    → add64 (mul64 (pos (n / 100000000)) (pos 100000000)) (pos (n % 100000000)) ≡ pos n
the_sum n h =
    ap (λ z. add64 z (pos (n % 100000000))) (mul64_pos (n / 100000000) 100000000 (omega arith))
    ∙ add64_pos (n / 100000000 * 100000000) (n % 100000000) (omega arith)
    ∙ ap pos (omega arith)

-- For every amount of satoshis from 0 to the largest int64, `parseQOGEDecimal` reads back what
-- `FormatQOGE` writes.
pub parse_qoge_decimal-format_qoge :
    (n : ℕ) → n < half_word → parse_qoge_decimal (format_qoge (pos n)) ≡ ok (pos n)
unfolding parse_qoge_decimal parse_part
parse_qoge_decimal-format_qoge n h = ground (
  arith,
  format_qoge_pos n h,
  split_dot-digits (whole_text n) (frac_text n) (decimal-IsDigit (n / 100000000)),
  length-frac_text n,
  parse_whole n h,
  parse_frac n,
  the_sum n h,
)

-- For every amount of satoshis from 0 to the largest int64, `QOGEToSatoshis` reads back what
-- `FormatQOGE` writes.
pub qoge_to_satoshis-format_qoge :
    (n : ℕ) → n < half_word → qoge_to_satoshis (format_qoge (pos n)) ≡ ok (pos n)
unfolding qoge_to_satoshis parse_natural add_fraction
qoge_to_satoshis-format_qoge n h = ground (
  arith,
  format_qoge_pos n h,
  trim_space-IsSolid (whole_text n ++ (b'.' ∷ frac_text n)) (format_qoge-IsSolid n),
  split_dot-digits (whole_text n) (frac_text n) (decimal-IsDigit (n / 100000000)),
  length-append (whole_text n) (b'.' ∷ frac_text n),
  length-decimal_pos (n / 100000000),
  length-frac_text n,
  append-nil (frac_text n),
  parse_whole n h,
  parse_frac n,
  the_sum n h,
  div64_pos max_int64 100000000 (omega arith),
)
