-- ===== src/Wallet/Sighash.antt =====
-- wallet.go: `computeP2QPKSighash` and `p2qpkScriptPubKey`.
use symbiont_wallet.Base.{
  ℕ, ◌+◌, not, List, [], ◌∷◌, ◌++◌, length, concat_map, leb, ◌==◌, Result, ok, err, fail_if, ◌>>◌,
  ◌>>=◌,
}
use symbiont_wallet.Base.Bytes.{Bytes, codes}
use symbiont_wallet.Base.Int64.{to_u64}
use symbiont_wallet.TxBuilder.Types.{TxInput, TxOutput}
use symbiont_wallet.TxBuilder.Compact.{write_compact}
use symbiont_wallet.TxBuilder.Serialize.{write_le32, write_le64, write_output}
use symbiont_wallet.Address.Format.{to_hash}
use symbiont_wallet.Wallet.Types.{
  Crypto, SpendParams, Error, address_error, inputs_mismatch, index_out_of_range,
}

module _ (crypto : Crypto) where
  open crypto use {sha256, convert_bits}

  -- `p2qpkScriptPubKey`.
  unfoldable pub p2qpk_script_pub_key : Bytes → Result Error Bytes
  p2qpk_script_pub_key addr = elim (to_hash convert_bits addr) [
    | err e ↦ err (address_error e)
    | ok hash ↦ ok (0x52 ∷ 0x20 ∷ hash)
  ]

  -- The five running hashes.
  abbrev pub prevout_bytes : TxInput → Bytes
  prevout_bytes i = i.txid_le ++ write_le32 (i.vout)

  abbrev pub amount_bytes : TxOutput → Bytes
  amount_bytes u = write_le64 (to_u64 (u.amount))

  abbrev pub script_bytes : TxOutput → Bytes
  script_bytes u = write_compact (length (u.script)) ++ u.script

  abbrev pub sequence_bytes : TxInput → Bytes
  sequence_bytes i = write_le32 (i.n_sequence)

  -- What is hashed under the tag: epoch 0 and SIGHASH_ALL, then the transaction, then the position.
  unfoldable pub sighash_preimage : SpendParams → ℕ → Bytes
  sighash_preimage p index =
      (0 ∷ 1 ∷ [])
      ++ (write_le32 (p.n_version)
          ++ (write_le32 (p.n_lock_time)
              ++ (sha256 (concat_map prevout_bytes (p.inputs))
                  ++ (sha256 (concat_map amount_bytes (p.spent_utxos))
                      ++ (sha256 (concat_map script_bytes (p.spent_utxos))
                          ++ (sha256 (concat_map sequence_bytes (p.inputs))
                              ++ (sha256 (concat_map write_output (p.outputs))
                                  ++ write_le32 index)))))))

  -- `computeP2QPKSighash`, of the parameters with `InputIndex` set to `index`.
  unfoldable pub compute_p2qpk_sighash : SpendParams → ℕ → Result Error Bytes
  unfolding sighash_preimage
  compute_p2qpk_sighash p index =
      let tag = sha256 (codes "P2QPKSighash") in
      fail_if (leb (length (p.inputs)) index) index_out_of_range
      >> fail_if (not (length (p.inputs) == length (p.spent_utxos))) inputs_mismatch
      >> ok (sha256 (tag ++ (tag ++ sighash_preimage p index)))

  -- The loop over the inputs, from the position `i` on.
  unfoldable pub sighashes_from : SpendParams → ℕ → List TxInput → Result Error (List Bytes)
  unfolding compute_p2qpk_sighash
  sighashes_from p i [] = ok []
  sighashes_from p i (input ∷ rest) =
      compute_p2qpk_sighash p i >>= λ hash. sighashes_from p (i + 1) rest >>= λ hs. ok (hash ∷ hs)
