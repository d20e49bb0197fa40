-- ===== src/Base/Words.antt =====
-- `encoding/binary`: unsigned words as bytes, highest first and lowest first.
use Prim.Native.Nat.{ℕ, zero, suc, ◌+◌, ◌*◌, ◌/◌, ◌%◌, ◌^◌, ◌<◌}
use mathlib.Core.Path.{◌≡◌, refl, sym, ap, ◌∙◌}
use mathlib.Core.Bool.{true, false}
use mathlib.Core.List.{[], ◌∷◌, ◌++◌}
use native.Mathlib.Omega.{arith}
use native.Mathlib.Nat.{pow-suc}
use symbiont_wallet.Base.Tests.{ltb, if◌then◌else◌}
use symbiont_wallet.Base.Lists.{length, length-append, All}
use symbiont_wallet.Base.Bytes.{Bytes, bytes_lt}

abbrev pub IsByte : ℕ → Type 0
IsByte b = b < 256

-- `BigEndian.PutUint64` and its like, for `n` bytes of `x`.
unfoldable pub put_be : ℕ → ℕ → Bytes
put_be zero x = []
put_be (suc n) x = put_be n (x / 256) ++ (x % 256 ∷ [])

unfoldable pub be_from : ℕ → Bytes → ℕ
be_from acc [] = acc
be_from acc (b ∷ bs) = be_from (acc * 256 + b) bs

-- `BigEndian.Uint64` and its like.
unfoldable pub be_value : Bytes → ℕ
unfolding be_from
be_value = be_from 0

-- `LittleEndian.PutUint16`, `PutUint32` and `PutUint64`, for 2, 4 and 8 bytes.
unfoldable pub put_le : ℕ → ℕ → Bytes
put_le zero x = []
put_le (suc n) x = (x % 256) ∷ put_le n (x / 256)

-- `LittleEndian.Uint16`, `Uint32` and `Uint64`.
unfoldable pub le_value : Bytes → ℕ
le_value [] = 0
le_value (b ∷ bs) = b + 256 * le_value bs

pub length-put_be : (n x : ℕ) → length (put_be n x) ≡ n
unfolding put_be
length-put_be zero x = refl
length-put_be (suc n) x =
    omega (arith, length-append (put_be n (x / 256)) (x % 256 ∷ []), length-put_be n (x / 256))

pub length-put_le : (n x : ℕ) → length (put_le n x) ≡ n
unfolding put_le
length-put_le zero x = refl
length-put_le (suc n) x = ap suc (length-put_le n (x / 256))

pub put_le-IsByte : (n x : ℕ) → All IsByte (put_le n x)
unfolding put_le
put_le-IsByte zero x = tt
put_le-IsByte (suc n) x = (omega arith, put_le-IsByte n (x / 256))

be_from-append : (acc : ℕ) (xs ys : Bytes) → be_from acc (xs ++ ys) ≡ be_from (be_from acc xs) ys
unfolding be_from
be_from-append acc [] ys = refl
be_from-append acc (x ∷ xs) ys = be_from-append (acc * 256 + x) xs ys

-- A word that fits is read back.
pub be_value-put_be : (n x : ℕ) → x < 256 ^ n → be_value (put_be n x) ≡ x
unfolding be_value put_be
be_value-put_be zero x h = omega arith
be_value-put_be (suc n) x h =
    be_from-append 0 (put_be n (x / 256)) (x % 256 ∷ [])
    ∙ unfold be_from in omega (arith, be_value-put_be n (x / 256) (omega (arith, pow-suc 256 n)))

pub le_value-put_le : (n x : ℕ) → x < 256 ^ n → le_value (put_le n x) ≡ x
unfolding le_value put_le
le_value-put_le zero x h = omega arith
le_value-put_le (suc n) x h =
    omega (arith, le_value-put_le n (x / 256) (omega (arith, pow-suc 256 n)))

pub put_be-injective : (n x y : ℕ) → x < 256 ^ n → y < 256 ^ n → put_be n x ≡ put_be n y → x ≡ y
put_be-injective n x y h k e = sym (be_value-put_be n x h) ∙ (ap be_value e ∙ be_value-put_be n y k)

-- Strings of one length compare by their first difference.
bytes_lt-append :
    (xs ys : Bytes) (a b : ℕ)
    → length xs ≡ length ys
    → bytes_lt (xs ++ (a ∷ [])) (ys ++ (b ∷ []))
      ≡ (if bytes_lt xs ys then true else if bytes_lt ys xs then false else ltb a b)
unfolding bytes_lt
bytes_lt-append [] [] a b h = ground arith
bytes_lt-append [] (y ∷ ys) a b h = absurd (omega arith)
bytes_lt-append (x ∷ xs) [] a b h = absurd (omega arith)
bytes_lt-append (x ∷ xs) (y ∷ ys) a b h = ground (arith, bytes_lt-append xs ys a b (omega arith))

-- Byte order on big-endian words is the order of the numbers.
pub bytes_lt-put_be :
    (n x y : ℕ) → x < 256 ^ n → y < 256 ^ n → bytes_lt (put_be n x) (put_be n y) ≡ ltb x y
unfolding put_be
bytes_lt-put_be zero x y h k = unfold bytes_lt in ground arith
bytes_lt-put_be (suc n) x y h k = ground (
  arith,
  bytes_lt-append (put_be n (x / 256)) (put_be n (y / 256)) (x % 256) (y % 256)
      (length-put_be n (x / 256) ∙ sym (length-put_be n (y / 256))),
  bytes_lt-put_be n (x / 256) (y / 256) (omega (arith, pow-suc 256 n))
      (omega (arith, pow-suc 256 n)),
  bytes_lt-put_be n (y / 256) (x / 256) (omega (arith, pow-suc 256 n))
      (omega (arith, pow-suc 256 n)),
)
