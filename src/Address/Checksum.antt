-- ===== src/Address/Checksum.antt =====
-- bech32m.go: the checksum of BIP173 and BIP350.
use symbiont_wallet.Base.{
  ℕ, zero, suc, ◌*◌, ◌/◌, ◌%◌, ◌^◌, List, [], ◌∷◌, ◌++◌, map, ◌==◌, if◌then◌else◌,
}
use Prim.Native.Nat.{bit_xor}
use symbiont_wallet.Base.Bytes.{Bytes}

-- `bech32Const` and `bech32mConst`.
abbrev pub bech32_const : ℕ
bech32_const = 1

abbrev pub bech32m_const : ℕ
bech32m_const = 0x2bc830a3

-- `gen[i]` where bit `i` of `b` is set.
abbrev pub gen_bit : ℕ → ℕ → ℕ → ℕ
gen_bit b i gen = if b / 2 ^ i % 2 == 1 then gen else 0

-- The inner loop of `polymod`.
unfoldable pub xor_gens : ℕ → ℕ → ℕ
xor_gens b chk =
    bit_xor
      (bit_xor
        (bit_xor (bit_xor (bit_xor chk (gen_bit b 0 0x3b6a57b2)) (gen_bit b 1 0x26508e6d))
          (gen_bit b 2 0x1ea119fa))
        (gen_bit b 3 0x3d4233dd))
      (gen_bit b 4 0x2a1462b3)

-- One turn of `polymod`: `chk >> 25` and `chk & 0x1ffffff` as quotient and remainder.
unfoldable pub polymod_step : ℕ → ℕ → ℕ
unfolding xor_gens
polymod_step chk v = xor_gens (chk / 33554432) (bit_xor (chk % 33554432 * 32) v)

unfoldable pub polymod_from : ℕ → List ℕ → ℕ
polymod_from chk [] = chk
polymod_from chk (v ∷ vs) = polymod_from (polymod_step chk v) vs

-- `polymod`.
unfoldable pub polymod : List ℕ → ℕ
polymod values = polymod_from 1 values

-- `hrpExpand`.
unfoldable pub hrp_expand : Bytes → List ℕ
hrp_expand hrp = map (λ c. c / 32) hrp ++ (0 ∷ map (λ c. c % 32) hrp)

-- `verifyChecksum`: the constant that matches, 0 for none.
unfoldable pub verify_checksum : Bytes → Bytes → ℕ
verify_checksum hrp data' =
    let pm = polymod (hrp_expand hrp ++ data') in
    if pm == bech32_const then bech32_const else if pm == bech32m_const then bech32m_const else 0

-- The six values of five bits each, highest first.
unfoldable pub five_bits : ℕ → ℕ → List ℕ
five_bits zero pm = []
five_bits (suc n) pm = (pm / 32 ^ n % 32) ∷ five_bits n pm

-- `createChecksum`.
unfoldable pub create_checksum : Bytes → Bytes → ℕ → Bytes
create_checksum hrp data' constant =
    five_bits 6
      (bit_xor (polymod (hrp_expand hrp ++ (data' ++ (0 ∷ 0 ∷ 0 ∷ 0 ∷ 0 ∷ 0 ∷ [])))) constant)
