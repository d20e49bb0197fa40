-- ===== src/Base/Decimal.antt =====
-- `%d` and `strconv.FormatInt` in base 10.
use Prim.Native.Nat.{ℕ, zero, suc, ◌+◌, ◌-◌, ◌/◌, ◌%◌}
use mathlib.Core.List.{[], ◌∷◌, ◌++◌}
use symbiont_wallet.Base.Tests.{ltb, if◌then◌else◌}
use symbiont_wallet.Base.Lists.{length, replicate}
use symbiont_wallet.Base.Bytes.{Bytes}
use symbiont_wallet.Base.Int64.{ℤ, pos, negsuc}

-- The digits of `n`, highest first, for `n` below the fuel.
unfoldable pub decimal_loop : ℕ → ℕ → Bytes
decimal_loop zero n = []
decimal_loop (suc fuel) n =
    let rest = decimal_loop fuel (n / 10) in
    if ltb n 10 then (48 + n) ∷ [] else rest ++ ((48 + n % 10) ∷ [])

unfoldable pub decimal : ℕ → Bytes
unfolding decimal_loop
decimal n = decimal_loop (suc n) n

unfoldable pub decimal_ℤ : ℤ → Bytes
decimal_ℤ (pos n) = decimal n
decimal_ℤ (negsuc n) = b'-' ∷ decimal (suc n)

-- A text filled with zeros in front to a width.
unfoldable pub pad_zeros : ℕ → Bytes → Bytes
pad_zeros width s = replicate (width - length s) b'0' ++ s

-- `%08d`: the sign counts.
unfoldable pub decimal8 : ℤ → Bytes
decimal8 (pos n) = pad_zeros 8 (decimal n)
decimal8 (negsuc n) = b'-' ∷ pad_zeros 7 (decimal (suc n))
