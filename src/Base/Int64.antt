-- ===== src/Base/Int64.antt =====
-- Go's `int64` (and `int`, which is as wide on the wallet's platforms): an integer between
-- -2 ^ 63 and 2 ^ 63 - 1, with the wrap-around of `+`, `-` and `*` written out.
use Prim.Native.Nat.{ℕ, suc, ◌+◌, ◌-◌, ◌*◌, ◌/◌, ◌%◌, ◌≤◌, ◌<◌}
use mathlib.Core.Path.{◌≡◌}
use mathlib.Core.Bool.{Bool, true}
use native.Mathlib.Omega.{arith}
use symbiont_wallet.Base.Tests.{ltb, leb, ◌==◌, if◌then◌else◌}

-- `negsuc n` is -(n + 1).
pub data ℤ : Type 0 where
  pos : ℕ → ℤ
  negsuc : ℕ → ℤ

abbrev pub pos_part : ℤ → ℕ
pos_part (pos n) = n
pos_part (negsuc n) = 0

abbrev pub neg_part : ℤ → ℕ
neg_part (pos n) = 0
neg_part (negsuc n) = suc n

abbrev pub sub_ℕ : ℕ → ℕ → ℤ
sub_ℕ a b = if leb b a then pos (a - b) else negsuc (b - a - 1)

-- 2 ^ 63 and 2 ^ 64.
abbrev pub half_word : ℕ
half_word = 9223372036854775808

abbrev pub word : ℕ
word = 18446744073709551616

-- The values an `int64` holds.
abbrev pub IsInt64 : ℤ → Type 0
IsInt64 (pos n) = n < half_word
IsInt64 (negsuc n) = n < half_word

-- The integer that 64 bits keep of `z`.
unfoldable pub wrap64 : ℤ → ℤ
wrap64 (pos n) = if ltb (n % word) half_word then pos (n % word) else negsuc (word - n % word - 1)
wrap64 (negsuc n) =
    if ltb (n % word) half_word then negsuc (n % word) else pos (word - n % word - 1)

unfoldable pub add64 : ℤ → ℤ → ℤ
add64 a b = wrap64 (sub_ℕ (pos_part a + pos_part b) (neg_part a + neg_part b))

unfoldable pub sub64 : ℤ → ℤ → ℤ
sub64 a b = wrap64 (sub_ℕ (pos_part a + neg_part b) (neg_part a + pos_part b))

unfoldable pub mul64 : ℤ → ℤ → ℤ
mul64 a b = wrap64 (
    sub_ℕ (pos_part a * pos_part b + neg_part a * neg_part b)
      (pos_part a * neg_part b + neg_part a * pos_part b))

-- `/`, which rounds towards 0.
unfoldable pub div64 : ℤ → ℤ → ℤ
div64 (pos a) (pos b) = wrap64 (pos (a / b))
div64 (pos a) (negsuc b) = wrap64 (sub_ℕ 0 (a / suc b))
div64 (negsuc a) (pos b) = wrap64 (sub_ℕ 0 (suc a / b))
div64 (negsuc a) (negsuc b) = wrap64 (pos (suc a / suc b))

abbrev pub ltb_ℤ : ℤ → ℤ → Bool
ltb_ℤ a b = ltb (pos_part a + neg_part b) (pos_part b + neg_part a)

abbrev pub leb_ℤ : ℤ → ℤ → Bool
leb_ℤ a b = leb (pos_part a + neg_part b) (pos_part b + neg_part a)

abbrev pub eq_ℤ : ℤ → ℤ → Bool
eq_ℤ a b = pos_part a + neg_part b == pos_part b + neg_part a

-- `uint64(v)` of an `int64`: the two's complement bit pattern.
abbrev pub to_u64 : ℤ → ℕ
to_u64 (pos n) = n % word
to_u64 (negsuc n) = word - 1 - n % word

pub wrap64_fits : (n : ℕ) → n < half_word → wrap64 (pos n) ≡ pos n
unfolding wrap64
wrap64_fits n h = ground arith

pub wrap64-IsInt64 : (z : ℤ) → IsInt64 (wrap64 z)
unfolding wrap64
wrap64-IsInt64 (pos n) = ground arith
wrap64-IsInt64 (negsuc n) = ground arith

pub add64_pos : (a b : ℕ) → a + b < half_word → add64 (pos a) (pos b) ≡ pos (a + b)
unfolding add64 wrap64
add64_pos a b h = ground arith

pub sub64_pos : (a b : ℕ) → a < half_word → b ≤ a → sub64 (pos a) (pos b) ≡ pos (a - b)
unfolding sub64 wrap64
sub64_pos a b h k = ground arith

pub mul64_pos : (a b : ℕ) → a * b < half_word → mul64 (pos a) (pos b) ≡ pos (a * b)
unfolding mul64 wrap64
mul64_pos a b h = ground arith

pub eq_ℤ_eq : (a b : ℤ) → eq_ℤ a b ≡ true → a ≡ b
eq_ℤ_eq a b h = ground arith

pub eq_ℤ_refl : (a : ℤ) → eq_ℤ a a ≡ true
eq_ℤ_refl a = ground arith

pub div64_pos : (a b : ℕ) → a / b < half_word → div64 (pos a) (pos b) ≡ pos (a / b)
unfolding div64 wrap64
div64_pos a b h = ground arith

-- Of `a - b` and `b - a` with `b` below `a` only the first is positive.
pub sub64_exact :
    (a b : ℤ)
    → IsInt64 a
    → IsInt64 b
    → leb_ℤ (pos 0) b ≡ true
    → leb_ℤ b a ≡ true
    → sub64 a b ≡ pos (pos_part a - pos_part b)
unfolding sub64 wrap64
sub64_exact a b ha hb h k = ground arith
