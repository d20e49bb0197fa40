-- ===== src/TxBuilder/Compact.antt =====
-- txbuilder.go: compact-size integers, written and measured; `readCompact` of `TxIDFromBIP144`.
-- wallet.go's `writeCompactSize` is the same function over another writer.
use symbiont_wallet.Base.{
  ℕ, ◌^◌, ◌<◌, ◌≡◌, [], ◌∷◌, ◌++◌, length, length-append, take, drop, take-append, drop-append, ltb,
  leb, ◌==◌, Result, ok, err, arith, if◌then◌else◌, subst,
}
use symbiont_wallet.Base.Bytes.{Bytes}
use symbiont_wallet.Base.Int64.{word}
use symbiont_wallet.Base.Words.{put_le, le_value, length-put_le, le_value-put_le}
use symbiont_wallet.TxBuilder.Types.{Error, truncated}

-- `writeCompact`.
unfoldable pub write_compact : ℕ → Bytes
write_compact n =
    if ltb n 0xfd
    then n ∷ []
    else if leb n 0xffff
    then 0xfd ∷ put_le 2 n
    else if leb n 0xffff_ffff
    then 0xfe ∷ put_le 4 n
    else 0xff ∷ put_le 8 n

-- `compactSizeLen`.
unfoldable pub compact_size_len : ℕ → ℕ
compact_size_len n =
    if ltb n 0xfd then 1 else if leb n 0xffff then 3 else if leb n 0xffff_ffff then 5 else 9

-- The reads of a fixed width: a value and what is left.
unfoldable pub read_fixed : ℕ → Bytes → Result Error (ℕ × Bytes)
read_fixed width raw =
    if ltb (length raw) width then err truncated else ok (le_value (take width raw), drop width raw)

-- `readCompact`, over the bytes between `offset` and `end`.
unfoldable pub read_compact : Bytes → Result Error (ℕ × Bytes)
unfolding read_fixed
read_compact [] = err truncated
read_compact (prefix ∷ rest) =
    if prefix == 0xfd
    then read_fixed 2 rest
    else if prefix == 0xfe
    then read_fixed 4 rest
    else if prefix == 0xff
    then read_fixed 8 rest
    else ok (prefix, rest)

-- The size that the plans count is the size that is written.
pub length-write_compact : (n : ℕ) → length (write_compact n) ≡ compact_size_len n
unfolding write_compact compact_size_len
length-write_compact n = ground (arith, length-put_le 2 n, length-put_le 4 n, length-put_le 8 n)

take-put_le : (width n : ℕ) (rest : Bytes) → take width (put_le width n ++ rest) ≡ put_le width n
take-put_le width n rest =
    subst (λ k. take k (put_le width n ++ rest) ≡ put_le width n) (length-put_le width n)
      (take-append (put_le width n) rest)

drop-put_le : (width n : ℕ) (rest : Bytes) → drop width (put_le width n ++ rest) ≡ rest
drop-put_le width n rest =
    subst (λ k. drop k (put_le width n ++ rest) ≡ rest) (length-put_le width n)
      (drop-append (put_le width n) rest)

read_fixed-put_le :
    (width n : ℕ) (rest : Bytes)
    → n < 256 ^ width
    → read_fixed width (put_le width n ++ rest) ≡ ok (n, rest)
unfolding read_fixed
read_fixed-put_le width n rest h = ground (
  arith,
  length-append (put_le width n) rest,
  length-put_le width n,
  take-put_le width n rest,
  drop-put_le width n rest,
  le_value-put_le width n h,
)

-- A compact size below 2 ^ 64 that is written is read back, with the bytes behind it left over.
pub read_compact-write_compact :
    (n : ℕ) (rest : Bytes) → n < word → read_compact (write_compact n ++ rest) ≡ ok (n, rest)
unfolding read_compact write_compact
read_compact-write_compact n rest h =
    ground
      (arith, read_fixed-put_le 2 n rest, read_fixed-put_le 4 n rest, read_fixed-put_le 8 n rest)

pub length-write_compact_pos : (n : ℕ) → 0 < length (write_compact n)
unfolding write_compact
length-write_compact_pos n = ground arith
