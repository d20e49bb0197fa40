-- ===== src/TxBuilder/RoundTrip.antt =====
-- txbuilder.go and wallet.go: the transaction ID that is read off a serialization is the one that
-- the fields have.
use symbiont_wallet.Base.{
  ℕ, suc, ◌-◌, ◌≤◌, ◌<◌, ◌≡◌, refl, sym, ap, ◌∙◌, subst, List, [], ◌∷◌, ◌++◌, length, All, take,
  drop, length-append, take-append, drop-append, concat_map, ok, arith, append_assoc, append-nil,
}
use symbiont_wallet.Base.Bytes.{Bytes}
use symbiont_wallet.Base.Int64.{word}
use symbiont_wallet.Base.Words.{put_le}
use symbiont_wallet.TxBuilder.Types.{
  TxInput, TxOutput, Witness, SignedTx, Error, missing_inputs, missing_outputs,
}
use symbiont_wallet.TxBuilder.Compact.{
  write_compact, read_compact-write_compact, length-write_compact_pos,
}
use symbiont_wallet.TxBuilder.Serialize.{
  write_le32, write_input, write_output, write_witness, write_body, write_bip144, check_witnesses,
  check_amounts, serialize_bip144,
}
use symbiont_wallet.TxBuilder.TxId.{
  skip_each, skip_body, skip_input, skip_output, skip_witness, read_count, display_hash,
  tx_id_from_bip144, p2qpk_tx_id,
}
use symbiont_wallet.TxBuilder.Reading.{
  HasTxId, HasScript, HasLengths, skip_input-write_input, skip_output-write_output,
  skip_witness-write_witness, skip_each-concat_map,
}

-- What Go's types say of a transaction: a `[32]byte` ID, and lengths that are 64-bit words.
abbrev pub IsWellFormed : SignedTx → Type 0
IsWellFormed tx =
    All HasTxId (tx.inputs)
    × All HasScript (tx.outputs)
    × (length (tx.inputs) < word)
    × (length (tx.outputs) < word)

-- What `SerializeBIP144` has checked when it succeeds.
abbrev pub IsComplete : SignedTx → Type 0
IsComplete tx =
    (0 < length (tx.inputs))
    × (0 < length (tx.outputs))
    × (length (tx.witnesses) ≡ length (tx.inputs))
    × All HasLengths (tx.witnesses)

check_witnesses_ok : (ws : List Witness) → check_witnesses ws ≡ ok tt → All HasLengths ws
unfolding check_witnesses
check_witnesses_ok [] h = tt
check_witnesses_ok (w ∷ ws) h = ground (arith, check_witnesses_ok ws)

pub serialize_bip144_ok :
    (tx : SignedTx) (raw : Bytes)
    → serialize_bip144 tx ≡ ok raw
    → IsComplete tx × (check_amounts (tx.outputs) ≡ ok tt) × (raw ≡ write_bip144 tx)
unfolding serialize_bip144
serialize_bip144_ok tx raw h = ground (arith, check_witnesses_ok (tx.witnesses))

read_count-write_compact :
    (e : Error) (n : ℕ) (rest : Bytes)
    → 0 < n
    → n < word
    → read_count e (write_compact n ++ rest) ≡ ok (n, rest)
unfolding read_count
read_count-write_compact e n rest h k =
    unfold read_count in ground (arith, read_compact-write_compact n rest k)

body_parts :
    (inputs : List TxInput) (outputs : List TxOutput) (rest : Bytes)
    → write_body inputs outputs ++ rest
      ≡ write_compact (length inputs)
        ++ (concat_map write_input inputs
            ++ (write_compact (length outputs) ++ (concat_map write_output outputs ++ rest)))
unfolding write_body
body_parts inputs outputs rest = simp (append_assoc)

-- What follows the inputs and the outputs is found.
skip_body-write_body :
    (inputs : List TxInput) (outputs : List TxOutput) (rest : Bytes)
    → All HasTxId inputs
    → All HasScript outputs
    → 0 < length inputs
    → 0 < length outputs
    → length inputs < word
    → length outputs < word
    → skip_body (write_body inputs outputs ++ rest) ≡ ok (length inputs, rest)
unfolding skip_body
skip_body-write_body inputs outputs rest hi ho i0 o0 iw ow = ground (
  arith,
  body_parts inputs outputs rest,
  read_count-write_compact missing_inputs (length inputs)
      (concat_map write_input inputs
        ++ (write_compact (length outputs) ++ (concat_map write_output outputs ++ rest)))
      i0 iw,
  skip_each-concat_map write_input skip_input HasTxId skip_input-write_input inputs
      (write_compact (length outputs) ++ (concat_map write_output outputs ++ rest)) hi,
  read_count-write_compact missing_outputs (length outputs)
      (concat_map write_output outputs ++ rest) o0 ow,
  skip_each-concat_map write_output skip_output HasScript skip_output-write_output outputs rest ho,
)

skip_witnesses-write_witness :
    (n : ℕ) (ws : List Witness)
    → length ws ≡ n
    → All HasLengths ws
    → skip_each skip_witness n (concat_map write_witness ws) ≡ ok []
skip_witnesses-write_witness n ws e h =
    subst (λ k. skip_each skip_witness k (concat_map write_witness ws) ≡ ok []) e
      (ap (λ (l : Bytes). skip_each skip_witness (length ws) l)
          (sym (append-nil (concat_map write_witness ws)))
        ∙ skip_each-concat_map write_witness skip_witness HasLengths skip_witness-write_witness ws
            [] h)

-- The serialization between the marker and the locktime, cut where the witnesses start.
module _ (sha256 : Bytes → Bytes) (x0 x1 x2 x3 : ℕ) (body witness_part end_part : Bytes)
    (inputs : ℕ) where
  abbrev raw : Bytes
  raw = x0 ∷ x1 ∷ x2 ∷ x3 ∷ 0 ∷ 1 ∷ ((body ++ witness_part) ++ end_part)

  length-raw :
      length end_part ≡ 4
      → length raw - 4 ≡ suc (suc (suc (suc (suc (suc (length (body ++ witness_part)))))))
  length-raw h = omega (arith, length-append (body ++ witness_part) end_part)

  body_of_raw : length end_part ≡ 4 → drop 6 (take (length raw - 4) raw) ≡ body ++ witness_part
  body_of_raw h =
      ap (λ k. drop 6 (take k raw)) (length-raw h) ∙ take-append (body ++ witness_part) end_part

  end_of_raw : length end_part ≡ 4 → drop (length raw - 4) raw ≡ end_part
  end_of_raw h = ap (λ k. drop k raw) (length-raw h) ∙ drop-append (body ++ witness_part) end_part

  stripped_body :
      take (length (body ++ witness_part) - length witness_part) (body ++ witness_part) ≡ body
  stripped_body =
      ap (λ k. take k (body ++ witness_part)) (omega (arith, length-append body witness_part))
      ∙ take-append body witness_part

  tx_id_of_raw :
      length end_part ≡ 4
      → 2 ≤ length body
      → skip_body (body ++ witness_part) ≡ ok (inputs, witness_part)
      → skip_each skip_witness inputs witness_part ≡ ok []
      → tx_id_from_bip144 sha256 raw
        ≡ ok (display_hash sha256 (x0 ∷ x1 ∷ x2 ∷ x3 ∷ (body ++ end_part)))
  unfolding tx_id_from_bip144
  tx_id_of_raw h k hb hw = ground (
    arith,
    length-append (body ++ witness_part) end_part,
    length-append body witness_part,
    body_of_raw h,
    end_of_raw h,
    stripped_body,
  )

length-write_body_pos :
    (inputs : List TxInput) (outputs : List TxOutput) → 2 ≤ length (write_body inputs outputs)
unfolding write_body
length-write_body_pos inputs outputs = omega (
  arith,
  length-append (write_compact (length inputs)) (
      concat_map write_input inputs
      ++ (write_compact (length outputs) ++ concat_map write_output outputs)),
  length-append (concat_map write_input inputs)
      (write_compact (length outputs) ++ concat_map write_output outputs),
  length-append (write_compact (length outputs)) (concat_map write_output outputs),
  length-write_compact_pos (length inputs),
  length-write_compact_pos (length outputs),
)

-- Whatever `SerializeBIP144` returns, `TxIDFromBIP144` accepts, and the ID it finds is the one
-- that `p2qpkTxID` computes from the fields: the witnesses do not enter into it.
pub tx_id_from_bip144-serialize_bip144 :
    (sha256 : Bytes → Bytes) (tx : SignedTx) (raw : Bytes)
    → IsWellFormed tx
    → serialize_bip144 tx ≡ ok raw
    → tx_id_from_bip144 sha256 raw
      ≡ ok (p2qpk_tx_id sha256 (tx.n_version) (tx.inputs) (tx.outputs) (tx.n_lock_time))
unfolding p2qpk_tx_id write_bip144 write_le32 put_le
tx_id_from_bip144-serialize_bip144 sha256 tx raw (hi, ho, iw, ow) h =
    let ((i0, o0, ew, hw), ha, er) = serialize_bip144_ok tx raw h in
    ap (tx_id_from_bip144 sha256) er
    ∙ tx_id_of_raw sha256 _ _ _ _ (write_body (tx.inputs) (tx.outputs))
        (concat_map write_witness (tx.witnesses)) (write_le32 (tx.n_lock_time)) (length (tx.inputs))
        refl (length-write_body_pos (tx.inputs) (tx.outputs))
        (skip_body-write_body (tx.inputs) (tx.outputs) _ hi ho i0 o0 iw ow)
        (skip_witnesses-write_witness (length (tx.inputs)) (tx.witnesses) ew hw)
