-- ===== src/TxBuilder/Serialize.antt =====
-- txbuilder.go: `SerializeBIP144` and its writers.
use symbiont_wallet.Base.{
  ℕ, List, [], ◌∷◌, ◌++◌, length, concat_map, ◌==◌, not, Result, ok, fail_if, ◌>>◌,
}
use symbiont_wallet.Base.Bytes.{Bytes}
use symbiont_wallet.Base.Int64.{pos, ltb_ℤ, to_u64}
use symbiont_wallet.Base.Words.{put_le}
use symbiont_wallet.TxBuilder.Compact.{write_compact}
use symbiont_wallet.TxBuilder.Types.{
  TxInput, TxOutput, Witness, SignedTx, Error, no_inputs, no_outputs, witness_count, bad_sig_len,
  bad_pub_key_len, negative_output, sig_len, pk_len,
}

-- `writeLE32` and `writeLE64`.
unfoldable pub write_le32 : ℕ → Bytes
write_le32 v = put_le 4 v

unfoldable pub write_le64 : ℕ → Bytes
write_le64 v = put_le 8 v

unfoldable pub write_input : TxInput → Bytes
write_input i = i.txid_le ++ (write_le32 (i.vout) ++ (write_compact 0 ++ write_le32 (i.n_sequence)))

unfoldable pub write_output : TxOutput → Bytes
write_output o = write_le64 (to_u64 (o.amount)) ++ (write_compact (length (o.script)) ++ o.script)

unfoldable pub write_witness : Witness → Bytes
write_witness w =
    write_compact 2
    ++ (write_compact (length (w.sig))
        ++ (w.sig ++ (write_compact (length (w.pub_key)) ++ w.pub_key)))

-- The inputs and the outputs, each behind its count.
unfoldable pub write_body : List TxInput → List TxOutput → Bytes
write_body inputs outputs =
    write_compact (length inputs)
    ++ (concat_map write_input inputs
        ++ (write_compact (length outputs) ++ concat_map write_output outputs))

unfoldable pub write_bip144 : SignedTx → Bytes
write_bip144 tx =
    write_le32 (tx.n_version)
    ++ (0
        ∷ 1
        ∷ ((write_body (tx.inputs) (tx.outputs) ++ concat_map write_witness (tx.witnesses))
            ++ write_le32 (tx.n_lock_time)))

unfoldable pub check_witnesses : List Witness → Result Error (Unit {0})
check_witnesses [] = ok tt
check_witnesses (w ∷ ws) =
    fail_if (not (length (w.sig) == sig_len)) bad_sig_len
    >> fail_if (not (length (w.pub_key) == pk_len)) bad_pub_key_len
    >> check_witnesses ws

unfoldable pub check_amounts : List TxOutput → Result Error (Unit {0})
check_amounts [] = ok tt
check_amounts (o ∷ os) = fail_if (ltb_ℤ (o.amount) (pos 0)) negative_output >> check_amounts os

-- `SerializeBIP144`.
unfoldable pub serialize_bip144 : SignedTx → Result Error Bytes
unfolding check_witnesses check_amounts write_bip144
serialize_bip144 tx =
    fail_if (length (tx.inputs) == 0) no_inputs
    >> fail_if (length (tx.outputs) == 0) no_outputs
    >> fail_if (not (length (tx.witnesses) == length (tx.inputs))) witness_count
    >> check_witnesses (tx.witnesses)
    >> check_amounts (tx.outputs)
    >> ok (write_bip144 tx)
