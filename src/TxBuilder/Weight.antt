-- ===== src/TxBuilder/Weight.antt =====
-- txbuilder.go: the size that `P2QPKVirtualSize` plans against the bytes that `SerializeBIP144`
-- writes.
use symbiont_wallet.Base.{
  ℕ, ◌+◌, ◌*◌, ◌/◌, ◌<◌, ◌≡◌, refl, ap, List, [], ◌∷◌, ◌++◌, length, All, length-append, concat_map,
  ok, arith, ◌∙◌,
}
use symbiont_wallet.Base.Bytes.{Bytes}
use symbiont_wallet.Base.Int64.{pos, to_u64}
use symbiont_wallet.TxBuilder.Types.{TxInput, TxOutput, Witness, SignedTx}
use symbiont_wallet.TxBuilder.Compact.{write_compact, compact_size_len, length-write_compact}
use symbiont_wallet.TxBuilder.Serialize.{
  write_le32, write_le64, write_input, write_output, write_witness, write_body, write_bip144,
  serialize_bip144,
}
use symbiont_wallet.TxBuilder.Reading.{HasTxId, HasLengths, length-write_le32, length-write_le64}
use symbiont_wallet.TxBuilder.RoundTrip.{IsWellFormed, serialize_bip144_ok}
use symbiont_wallet.TxBuilder.Size.{
  p2qpk_virtual_size, p2qpk_virtual_size_value, outputs_size, weight,
}

length-write_input : (i : TxInput) → HasTxId i → length (write_input i) ≡ 41
unfolding write_input
length-write_input i h =
    unfold write_compact in
    omega (
      arith,
      length-append (i.txid_le)
          (write_le32 (i.vout) ++ (write_compact 0 ++ write_le32 (i.n_sequence))),
      length-append (write_le32 (i.vout)) (write_compact 0 ++ write_le32 (i.n_sequence)),
      length-write_le32 (i.vout),
      length-write_le32 (i.n_sequence),
    )

length-write_inputs :
    (is : List TxInput) → All HasTxId is → length (concat_map write_input is) ≡ length is * 41
length-write_inputs [] h = omega arith
length-write_inputs (i ∷ is) (hi, h) = omega (
  arith,
  length-append (write_input i) (concat_map write_input is),
  length-write_input i hi,
  length-write_inputs is h,
)

length-write_output :
    (o : TxOutput)
    → length (write_output o) ≡ 8 + compact_size_len (length (o.script)) + length (o.script)
unfolding write_output
length-write_output o = omega (
  arith,
  length-append (write_le64 (to_u64 (o.amount))) (write_compact (length (o.script)) ++ o.script),
  length-append (write_compact (length (o.script))) (o.script),
  length-write_le64 (to_u64 (o.amount)),
  length-write_compact (length (o.script)),
)

length-write_outputs : (os : List TxOutput) → length (concat_map write_output os) ≡ outputs_size os
length-write_outputs [] = refl
length-write_outputs (o ∷ os) = omega (
  arith,
  length-append (write_output o) (concat_map write_output os),
  length-write_output o,
  length-write_outputs os,
)

length-write_witness : (w : Witness) → HasLengths w → length (write_witness w) ≡ 17125
unfolding write_witness
length-write_witness w (hs, hp) =
    unfold compact_size_len in
    ground (
      arith,
      length-append (write_compact 2) (
          write_compact (length (w.sig))
          ++ (w.sig ++ (write_compact (length (w.pub_key)) ++ w.pub_key))),
      length-append (write_compact (length (w.sig)))
          (w.sig ++ (write_compact (length (w.pub_key)) ++ w.pub_key)),
      length-append (w.sig) (write_compact (length (w.pub_key)) ++ w.pub_key),
      length-append (write_compact (length (w.pub_key))) (w.pub_key),
      length-write_compact 2,
      length-write_compact (length (w.sig)),
      length-write_compact (length (w.pub_key)),
    )

length-write_witnesses :
    (ws : List Witness)
    → All HasLengths ws
    → length (concat_map write_witness ws) ≡ length ws * 17125
length-write_witnesses [] h = omega arith
length-write_witnesses (w ∷ ws) (hw, h) = omega (
  arith,
  length-append (write_witness w) (concat_map write_witness ws),
  length-write_witness w hw,
  length-write_witnesses ws h,
)

length-write_body :
    (is : List TxInput) (os : List TxOutput)
    → All HasTxId is
    → length (write_body is os)
      ≡ compact_size_len (length is)
        + length is * 41
        + compact_size_len (length os)
        + outputs_size os
unfolding write_body
length-write_body is os h = omega (
  arith,
  length-append (write_compact (length is))
      (concat_map write_input is ++ (write_compact (length os) ++ concat_map write_output os)),
  length-append (concat_map write_input is)
      (write_compact (length os) ++ concat_map write_output os),
  length-append (write_compact (length os)) (concat_map write_output os),
  length-write_compact (length is),
  length-write_compact (length os),
  length-write_inputs is h,
  length-write_outputs os,
)

-- The serialization without its marker and its witnesses, which `p2qpkTxID` hashes.
abbrev pub stripped_bytes : SignedTx → Bytes
stripped_bytes tx =
    write_le32 (tx.n_version)
    ++ (write_body (tx.inputs) (tx.outputs) ++ write_le32 (tx.n_lock_time))

length-stripped_bytes :
    (tx : SignedTx) → length (stripped_bytes tx) ≡ 8 + length (write_body (tx.inputs) (tx.outputs))
length-stripped_bytes tx = omega (
  arith,
  length-append (write_le32 (tx.n_version))
      (write_body (tx.inputs) (tx.outputs) ++ write_le32 (tx.n_lock_time)),
  length-append (write_body (tx.inputs) (tx.outputs)) (write_le32 (tx.n_lock_time)),
  length-write_le32 (tx.n_version),
  length-write_le32 (tx.n_lock_time),
)

length-write_bip144 :
    (tx : SignedTx)
    → length (write_bip144 tx)
      ≡ 10
        + length (write_body (tx.inputs) (tx.outputs))
        + length (concat_map write_witness (tx.witnesses))
unfolding write_bip144
length-write_bip144 tx =
    let b = write_body (tx.inputs) (tx.outputs) in
    let w = concat_map write_witness (tx.witnesses) in
    omega (
      arith,
      length-append (write_le32 (tx.n_version)) (0 ∷ 1 ∷ ((b ++ w) ++ write_le32 (tx.n_lock_time))),
      length-append (b ++ w) (write_le32 (tx.n_lock_time)),
      length-append b w,
      length-write_le32 (tx.n_version),
      length-write_le32 (tx.n_lock_time),
    )

-- The bytes written have the weight that the plan counts.
weight-serialize_bip144 :
    (tx : SignedTx) (raw : Bytes)
    → IsWellFormed tx
    → serialize_bip144 tx ≡ ok raw
    → weight (length (tx.inputs)) (tx.outputs) ≡ 3 * length (stripped_bytes tx) + length raw
weight-serialize_bip144 tx raw (hi, _, _, _) h =
    let ((i0, o0, ew, hw), _, er) = serialize_bip144_ok tx raw h in
    omega (
      arith,
      ap (λ (l : Bytes). length l) er,
      length-write_bip144 tx,
      length-stripped_bytes tx,
      length-write_body (tx.inputs) (tx.outputs) hi,
      length-write_witnesses (tx.witnesses) hw,
    )

-- For every transaction that `SerializeBIP144` accepts, of fewer than 2 ^ 60 bytes, the size that
-- `P2QPKVirtualSize` gives to its shape is BIP141's of the bytes really written: three times the
-- length without witnesses plus the whole length, over 4, rounded up.
pub p2qpk_virtual_size-serialize_bip144 :
    (tx : SignedTx) (raw : Bytes)
    → IsWellFormed tx
    → serialize_bip144 tx ≡ ok raw
    → length raw < 1152921504606846976
    → p2qpk_virtual_size (pos (length (tx.inputs))) (tx.outputs)
      ≡ ok (pos ((3 * length (stripped_bytes tx) + length raw + 3) / 4))
p2qpk_virtual_size-serialize_bip144 tx raw wf h small =
    let ((i0, o0, _, _), ha, er) = serialize_bip144_ok tx raw h in
    let e = weight-serialize_bip144 tx raw wf h in
    p2qpk_virtual_size_value (length (tx.inputs)) (tx.outputs) i0 o0 ha (
      omega
        (arith, ap (λ (l : Bytes). length l) er, length-write_bip144 tx, length-stripped_bytes tx))
    ∙ ap (λ (n : ℕ). ok (pos ((n + 3) / 4))) e
