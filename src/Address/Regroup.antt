-- ===== src/Address/Regroup.antt =====
-- A function to stand for `bech32.ConvertBits` in the tests: it regroups, and drops what is left over.
use symbiont_wallet.Base.{
  ℕ, zero, suc, ◌+◌, ◌*◌, ◌/◌, ◌%◌, ◌^◌, some, List, [], ◌∷◌, ltb, length, take, drop, concat_map,
  if◌then◌else◌,
}
use symbiont_wallet.Address.Format.{Convert}

-- Bits, highest first, and their groups.
abbrev pub bits_of : ℕ → ℕ → List ℕ
bits_of zero v = []
bits_of (suc w) v = (v / 2 ^ w % 2) ∷ bits_of w v

abbrev pub value_of : ℕ → List ℕ → ℕ
value_of acc [] = acc
value_of acc (b ∷ bs) = value_of (acc * 2 + b) bs

abbrev pub groups : ℕ → ℕ → List ℕ → List ℕ
groups zero w bits = []
groups (suc fuel) w bits =
    let rest = groups fuel w (drop w bits) in
    if ltb (length bits) w then [] else value_of 0 (take w bits) ∷ rest

abbrev pub regroup : Convert
regroup data' from to pad = some (groups 64 to (concat_map (bits_of from) data'))
