-- ===== src/TxBuilder/Size.antt =====
-- txbuilder.go: `P2QPKVirtualSize` and the standard-size policy.
use symbiont_wallet.Base.{
  ℕ, ◌+◌, ◌*◌, ◌/◌, ◌<◌, ◌≡◌, List, [], ◌∷◌, length, ◌==◌, replicate, Result, ok, fail_if, ◌>>◌,
  ◌>>=◌, arith,
}
use symbiont_wallet.Base.Bytes.{Bytes}
use symbiont_wallet.Base.Int64.{
  ℤ, pos, add64, mul64, div64, ltb_ℤ, leb_ℤ, to_u64, wrap64, half_word, add64_pos, mul64_pos,
  div64_pos, wrap64_fits,
}
use symbiont_wallet.TxBuilder.Types.{
  TxOutput, Error, count_not_positive, no_outputs, negative_output, too_many_inputs, too_large,
  sig_len, pk_len,
}
use symbiont_wallet.TxBuilder.Compact.{compact_size_len}
use symbiont_wallet.TxBuilder.Serialize.{check_amounts}

-- The loop over the outputs, which adds their sizes to `stripped`.
unfoldable pub add_outputs : ℤ → List TxOutput → Result Error ℤ
add_outputs stripped [] = ok stripped
add_outputs stripped (o ∷ os) =
    let n = length (o.script) in
    fail_if (ltb_ℤ (o.amount) (pos 0)) negative_output
    >> add_outputs (add64 stripped (wrap64 (pos (8 + compact_size_len n + n)))) os

unfoldable pub witness_per_input : ℤ
witness_per_input = pos (1 + compact_size_len sig_len + sig_len + compact_size_len pk_len + pk_len)

-- `P2QPKVirtualSize`.
unfoldable pub p2qpk_virtual_size : ℤ → List TxOutput → Result Error ℤ
unfolding add_outputs witness_per_input
p2qpk_virtual_size count outputs =
    let fixed =
      add64 (add64 (pos (4 + compact_size_len (to_u64 count))) (mul64 count (pos 41)))
        (pos (compact_size_len (length outputs) + 4)) in
    let witness = add64 (pos 2) (mul64 count witness_per_input) in
    fail_if (leb_ℤ count (pos 0)) count_not_positive
    >> fail_if (length outputs == 0) no_outputs
    >> (add_outputs fixed outputs >>= λ stripped.
        ok (div64 (add64 (add64 (mul64 stripped (pos 4)) witness) (pos 3)) (pos 4)))

-- `P2QPKSafeMaxInputs` and `maxStandardTxVSize`.
abbrev pub safe_max_inputs : ℕ
safe_max_inputs = 22

abbrev pub max_standard_vsize : ℕ
max_standard_vsize = 100000

-- `ValidateP2QPKStandardTransaction`.
unfoldable pub validate_standard_transaction : ℤ → List TxOutput → Result Error ℤ
unfolding p2qpk_virtual_size
validate_standard_transaction count outputs =
    fail_if (ltb_ℤ (pos safe_max_inputs) count) too_many_inputs
    >> (p2qpk_virtual_size count outputs >>= λ vsize.
        fail_if (ltb_ℤ (pos max_standard_vsize) vsize) too_large >> ok vsize)

-- `ValidateP2QPKStandardSize`: the destination and a change output of 34 zero bytes.
unfoldable pub validate_standard_size : ℤ → Bytes → Result Error ℤ
unfolding validate_standard_transaction
validate_standard_size count script = validate_standard_transaction count (
    record { amount = pos 0; script = script }
    ∷ record { amount = pos 0; script = replicate 34 0 }
    ∷ [])

-- The bytes of the outputs.
abbrev pub outputs_size : List TxOutput → ℕ
outputs_size [] = 0
outputs_size (o ∷ os) =
    8 + compact_size_len (length (o.script)) + length (o.script) + outputs_size os

-- The weight of a transaction of `n` inputs.
abbrev pub weight : ℕ → List TxOutput → ℕ
weight n outputs =
    4
      * (4
          + compact_size_len n
          + n * 41
          + compact_size_len (length outputs)
          + 4
          + outputs_size outputs)
    + 2
    + n * 17125

add_outputs_value :
    (a : ℕ) (outputs : List TxOutput)
    → check_amounts outputs ≡ ok tt
    → a + outputs_size outputs < half_word
    → add_outputs (pos a) outputs ≡ ok (pos (a + outputs_size outputs))
unfolding add_outputs check_amounts
add_outputs_value a [] h k = ground arith
add_outputs_value a (o ∷ os) h k =
    let n = 8 + compact_size_len (length (o.script)) + length (o.script) in
    ground (
      arith,
      wrap64_fits n (omega arith),
      add64_pos a n (omega arith),
      add_outputs_value (a + n) os,
    )

-- Without an overflow, the virtual size is the weight over 4, rounded up.
pub p2qpk_virtual_size_value :
    (n : ℕ) (outputs : List TxOutput)
    → 0 < n
    → 0 < length outputs
    → check_amounts outputs ≡ ok tt
    → weight n outputs + 3 < half_word
    → p2qpk_virtual_size (pos n) outputs ≡ ok (pos ((weight n outputs + 3) / 4))
unfolding p2qpk_virtual_size witness_per_input compact_size_len
p2qpk_virtual_size_value n outputs n0 o0 ha hw =
    let c = compact_size_len n in
    let d = compact_size_len (length outputs) + 4 in
    let stripped = 4 + c + n * 41 + d + outputs_size outputs in
    ground (
      arith,
      mul64_pos n 41 (omega arith),
      mul64_pos n 17125 (omega arith),
      add64_pos (4 + c) (n * 41) (omega arith),
      add64_pos (4 + c + n * 41) d (omega arith),
      add64_pos 2 (n * 17125) (omega arith),
      add_outputs_value (4 + c + n * 41 + d) outputs ha (omega arith),
      mul64_pos stripped 4 (omega arith),
      add64_pos (stripped * 4) (2 + n * 17125) (omega arith),
      add64_pos (stripped * 4 + (2 + n * 17125)) 3 (omega arith),
      div64_pos (stripped * 4 + (2 + n * 17125) + 3) 4 (omega arith),
    )
