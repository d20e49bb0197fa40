-- ===== src/Base/ParseInt.antt =====
-- `strconv.ParseInt(s, 10, 64)` and its inverse, and what the parsers do to text: `TrimSpace` and
-- `SplitN(s, ".", 2)`, on ASCII text.
use Prim.Native.Nat.{ℕ, ◌+◌, ◌-◌, ◌*◌}
use mathlib.Core.Bool.{Bool, ◌&&◌, ◌||◌}
use mathlib.Core.List.{[], ◌∷◌}
use mathlib.Core.Option.{Option, none, some}
use symbiont_wallet.Base.Tests.{ltb, leb, ◌==◌, if◌then◌else◌}
use symbiont_wallet.Base.Lists.{length}
use symbiont_wallet.Base.Bytes.{Bytes}
use symbiont_wallet.Base.Int64.{ℤ, pos, sub_ℕ, half_word}

abbrev pub is_digit : ℕ → Bool
is_digit c = leb 48 c && leb c 57

-- The number that the digits spell behind `acc`, if all are digits.
unfoldable pub digits_from : ℕ → Bytes → Option ℕ
digits_from acc [] = some acc
digits_from acc (c ∷ cs) =
    let rest = digits_from (acc * 10 + (c - 48)) cs in if is_digit c then rest else none

unfoldable pub parse_digits : Bytes → Option ℕ
unfolding digits_from
parse_digits [] = none
parse_digits (c ∷ cs) = digits_from 0 (c ∷ cs)

abbrev pub in_range : Option ℕ → Option ℤ
in_range none = none
in_range (some n) = if ltb n half_word then some (pos n) else none

abbrev pub in_range_negated : Option ℕ → Option ℤ
in_range_negated none = none
in_range_negated (some n) = if leb n half_word then some (sub_ℕ 0 n) else none

-- `strconv.ParseInt`, `none` for its errors.
unfoldable pub parse_int : Bytes → Option ℤ
unfolding parse_digits
parse_int [] = none
parse_int (c ∷ cs) =
    if c == b'+'
    then in_range (parse_digits cs)
    else if c == b'-'
    then in_range_negated (parse_digits cs)
    else in_range (parse_digits (c ∷ cs))

-- The ASCII characters that `unicode.IsSpace` accepts.
abbrev pub is_space : ℕ → Bool
is_space c = (leb 9 c && leb c 13) || c == 32

unfoldable pub trim_left : Bytes → Bytes
trim_left [] = []
trim_left (c ∷ cs) = let rest = trim_left cs in if is_space c then rest else c ∷ cs

unfoldable pub trim_right : Bytes → Bytes
trim_right [] = []
trim_right (c ∷ cs) =
    let rest = trim_right cs in if is_space c && length rest == 0 then [] else c ∷ rest

-- `strings.TrimSpace`.
unfoldable pub trim_space : Bytes → Bytes
unfolding trim_left trim_right
trim_space s = trim_right (trim_left s)

-- `strings.SplitN(s, ".", 2)`: what stands before the first dot, and what behind it, if there is one.
unfoldable pub split_dot : Bytes → Bytes × Option Bytes
split_dot [] = ([], none)
split_dot (c ∷ cs) =
    let (before, behind) = split_dot cs in if c == b'.' then ([], some cs) else (c ∷ before, behind)
