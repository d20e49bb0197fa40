-- ===== src/Base/Digits.antt =====
-- What `strconv.ParseInt` makes of the digits that `%d` and `%08d` write.
use Prim.Native.Nat.{ℕ, zero, suc, ◌+◌, ◌-◌, ◌*◌, ◌/◌, ◌%◌, ◌^◌, ◌≤◌, ◌<◌}
use mathlib.Core.Path.{◌≡◌, refl, ap, ◌∙◌}
use mathlib.Core.Bool.{true, false}
use mathlib.Core.List.{[], ◌∷◌, ◌++◌}
use mathlib.Core.Option.{some}
use native.Mathlib.Omega.{arith}
use native.Mathlib.Nat.{pow-suc}
use symbiont_wallet.Base.Lists.{All, All-append, length, length-append, length-replicate, replicate}
use symbiont_wallet.Base.Bytes.{Bytes}
use symbiont_wallet.Base.Int64.{pos, half_word}
use symbiont_wallet.Base.Decimal.{decimal, decimal_loop, pad_zeros}
use symbiont_wallet.Base.ParseInt.{
  is_digit, digits_from, parse_digits, parse_int, is_space, trim_left, trim_right, trim_space,
  split_dot,
}

abbrev pub IsDigit : ℕ → Type 0
IsDigit c = is_digit c ≡ true

decimal_loop-IsDigit : (fuel n : ℕ) → All IsDigit (decimal_loop fuel n)
unfolding decimal_loop
decimal_loop-IsDigit zero n = tt
decimal_loop-IsDigit (suc fuel) n = ground (
  arith,
  decimal_loop-IsDigit fuel (n / 10),
  All-append IsDigit (decimal_loop fuel (n / 10)) ((48 + n % 10) ∷ []),
)

pub decimal-IsDigit : (n : ℕ) → All IsDigit (decimal n)
unfolding decimal
decimal-IsDigit n = decimal_loop-IsDigit (suc n) n

digits_from-append :
    (acc m : ℕ) (xs ys : Bytes)
    → digits_from acc xs ≡ some m
    → digits_from acc (xs ++ ys) ≡ digits_from m ys
unfolding digits_from
digits_from-append acc m [] ys h = ground arith
digits_from-append acc m (x ∷ xs) ys h =
    ground (arith, digits_from-append (acc * 10 + (x - 48)) m xs ys)

digits_from-decimal_loop : (fuel n : ℕ) → n < fuel → digits_from 0 (decimal_loop fuel n) ≡ some n
unfolding decimal_loop digits_from
digits_from-decimal_loop zero n h = absurd (omega arith)
digits_from-decimal_loop (suc fuel) n h = ground (
  arith,
  digits_from-decimal_loop fuel (n / 10),
  digits_from-append 0 (n / 10) (decimal_loop fuel (n / 10)) ((48 + n % 10) ∷ []),
)

pub digits_from-decimal : (n : ℕ) → digits_from 0 (decimal n) ≡ some n
unfolding decimal
digits_from-decimal n = digits_from-decimal_loop (suc n) n (omega arith)

length-decimal_loop_pos : (fuel n : ℕ) → 0 < fuel → 0 < length (decimal_loop fuel n)
unfolding decimal_loop
length-decimal_loop_pos zero n h = absurd (omega arith)
length-decimal_loop_pos (suc fuel) n h =
    ground (arith, length-append (decimal_loop fuel (n / 10)) ((48 + n % 10) ∷ []))

pub length-decimal_pos : (n : ℕ) → 0 < length (decimal n)
unfolding decimal
length-decimal_pos n = length-decimal_loop_pos (suc n) n (omega arith)

length-decimal_loop : (k fuel n : ℕ) → n < 10 ^ k * 10 → length (decimal_loop fuel n) ≤ suc k
unfolding decimal_loop
length-decimal_loop k zero n h = omega arith
length-decimal_loop zero (suc fuel) n h = ground arith
length-decimal_loop (suc k) (suc fuel) n h = ground (
  arith,
  pow-suc 10 k,
  length-decimal_loop k fuel (n / 10),
  length-append (decimal_loop fuel (n / 10)) ((48 + n % 10) ∷ []),
)

pub length-decimal : (k n : ℕ) → n < 10 ^ k * 10 → length (decimal n) ≤ suc k
unfolding decimal
length-decimal k n h = length-decimal_loop k (suc n) n h

digits_from-replicate :
    (k : ℕ) (s : Bytes) → digits_from 0 (replicate k b'0' ++ s) ≡ digits_from 0 s
unfolding digits_from
digits_from-replicate zero s = refl
digits_from-replicate (suc k) s = ground (arith, digits_from-replicate k s)

replicate-IsDigit : (k : ℕ) → All IsDigit (replicate k b'0')
replicate-IsDigit zero = tt
replicate-IsDigit (suc k) = (refl, replicate-IsDigit k)

pub pad_zeros-IsDigit : (width : ℕ) (s : Bytes) → All IsDigit s → All IsDigit (pad_zeros width s)
unfolding pad_zeros
pad_zeros-IsDigit width s h =
    All-append IsDigit (replicate (width - length s) b'0') s (replicate-IsDigit (width - length s))
      h

pub length-pad_zeros :
    (width : ℕ) (s : Bytes) → length s ≤ width → length (pad_zeros width s) ≡ width
unfolding pad_zeros
length-pad_zeros width s h = omega (
  arith,
  length-append (replicate (width - length s) b'0') s,
  length-replicate {A = ℕ} (width - length s) b'0',
)

digits_from-pad_zeros : (width n : ℕ) → digits_from 0 (pad_zeros width (decimal n)) ≡ some n
unfolding pad_zeros
digits_from-pad_zeros width n =
    digits_from-replicate (width - length (decimal n)) (decimal n) ∙ digits_from-decimal n

-- A text of digits is parsed as the number they spell.
parse_int-digits :
    (s : Bytes) (n : ℕ)
    → All IsDigit s
    → 0 < length s
    → digits_from 0 s ≡ some n
    → n < half_word
    → parse_int s ≡ some (pos n)
unfolding parse_int
parse_int-digits [] n hs h e hn = absurd (omega arith)
parse_int-digits (c ∷ cs) n (hc, hs) h e hn = unfold parse_digits in ground arith

pub parse_int-decimal : (n : ℕ) → n < half_word → parse_int (decimal n) ≡ some (pos n)
parse_int-decimal n h =
    parse_int-digits (decimal n) n (decimal-IsDigit n) (length-decimal_pos n)
      (digits_from-decimal n) h

pub parse_int-pad_zeros :
    (width n : ℕ)
    → 0 < width
    → length (decimal n) ≤ width
    → n < half_word
    → parse_int (pad_zeros width (decimal n)) ≡ some (pos n)
parse_int-pad_zeros width n h l hn =
    parse_int-digits (pad_zeros width (decimal n)) n
      (pad_zeros-IsDigit width (decimal n) (decimal-IsDigit n))
      (omega (arith, length-pad_zeros width (decimal n) l)) (digits_from-pad_zeros width n) hn

-- What is not white space is not trimmed.
abbrev pub IsSolid : ℕ → Type 0
IsSolid c = is_space c ≡ false

trim_left-IsSolid : (s : Bytes) → All IsSolid s → trim_left s ≡ s
unfolding trim_left
trim_left-IsSolid [] h = refl
trim_left-IsSolid (c ∷ cs) (h, hs) = ground arith

trim_right-IsSolid : (s : Bytes) → All IsSolid s → trim_right s ≡ s
unfolding trim_right
trim_right-IsSolid [] h = refl
trim_right-IsSolid (c ∷ cs) (h, hs) = ground (arith, trim_right-IsSolid cs hs)

pub trim_space-IsSolid : (s : Bytes) → All IsSolid s → trim_space s ≡ s
unfolding trim_space
trim_space-IsSolid s h = ap trim_right (trim_left-IsSolid s h) ∙ trim_right-IsSolid s h

pub digits-IsSolid : (s : Bytes) → All IsDigit s → All IsSolid s
digits-IsSolid [] h = tt
digits-IsSolid (c ∷ cs) (h, hs) = (ground arith, digits-IsSolid cs hs)

-- Digits are split from what stands behind the dot after them.
pub split_dot-digits :
    (s behind : Bytes) → All IsDigit s → split_dot (s ++ (b'.' ∷ behind)) ≡ (s, some behind)
unfolding split_dot
split_dot-digits [] behind h = refl
split_dot-digits (c ∷ cs) behind (h, hs) = ground (arith, split_dot-digits cs behind hs)
