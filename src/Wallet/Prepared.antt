-- ===== src/Wallet/Prepared.antt =====
-- wallet.go: what a signing has computed by the time it writes.
use symbiont_wallet.Base.{ℕ, ◌≡◌, ◌≢◌, Bool, inl, inr, Option, List, ok, err, Result-cases, arith}
use symbiont_wallet.Base.Bytes.{Bytes, bytes_eq_iff, bytes_eq_refl}
use symbiont_wallet.Base.Int64.{ℤ, pos}
use symbiont_wallet.Keystore.Types.{AddressRecord}
use symbiont_wallet.TxBuilder.Serialize.{serialize_bip144}
use symbiont_wallet.TxBuilder.TxId.{tx_id_from_bip144}
use symbiont_wallet.TxBuilder.RoundTrip.{IsWellFormed, tx_id_from_bip144-serialize_bip144}
use symbiont_wallet.Wallet.Types.{
  Crypto, SpendParams, Details, txid_mismatch, input_total_overflows, output_total_overflows,
}
use symbiont_wallet.Wallet.Sighash.{sighashes_from}
use symbiont_wallet.Wallet.Signing.{
  total_of, first_output, choose_metadata, Signed, sign_all, signed_tx, spend_txid_of,
  serialize_checked, pending_of, prepare,
}

module _ (crypto : Crypto) where
  open crypto use {sha256}

  serialize_checked_ok :
      (p : SpendParams) (pub_key : Bytes) (signatures : List Bytes) (raw : Bytes)
      → serialize_checked crypto p pub_key signatures ≡ ok raw
      → (serialize_bip144 (signed_tx crypto p pub_key signatures) ≡ ok raw)
        × (tx_id_from_bip144 sha256 raw ≡ ok (spend_txid_of crypto p))
  unfolding serialize_checked
  serialize_checked_ok p pub_key signatures raw h =
      elim (Result-cases (serialize_bip144 (signed_tx crypto p pub_key signatures))) [
        | inr (bad, e) ↦ absurd (ground arith)
        | inl (bytes, e) ↦ elim (Result-cases (tx_id_from_bip144 sha256 bytes)) [
          | inr (bad, e') ↦ absurd (ground arith)
          | inl (id, e') ↦ ground (arith, bytes_eq_iff id (spend_txid_of crypto p))
        ]
      ]

  -- The values that stand behind a prepared signing.
  pub record Prepared (recovery : Bool) (p : SpendParams) (details : Option Details) (now : ℕ)
      (rec : AddressRecord) (s : Signed) : Type 0 where
    pub hashes : List Bytes
    pub total_input : ℤ
    pub total_output : ℤ
    pub metadata : Details
    pub hashed : sighashes_from crypto p 0 (p.inputs) ≡ ok hashes
    pub signed : sign_all crypto rec hashes ≡ ok (s.signatures)
    pub serialized :
        serialize_bip144 (signed_tx crypto p (rec.public_key) (s.signatures)) ≡ ok (s.raw)
    pub identified : tx_id_from_bip144 sha256 (s.raw) ≡ ok (s.txid)
    pub tracked : s.txid ≡ spend_txid_of crypto p
    pub added : total_of input_total_overflows (pos 0) (p.spent_utxos) ≡ ok total_input
    pub spent_added : total_of output_total_overflows (pos 0) (p.outputs) ≡ ok total_output
    pub described :
        choose_metadata details (first_output (p.outputs)) total_input total_output ≡ ok metadata
    pub filed : s.pending ≡ pending_of crypto recovery p (s.raw) metadata now

  pub prepare_ok :
      (recovery : Bool) (p : SpendParams) (details : Option Details) (now : ℕ) (rec : AddressRecord)
      (s : Signed)
      → prepare crypto recovery p details now rec ≡ ok s
      → Prepared recovery p details now rec s
  unfolding prepare
  prepare_ok recovery p details now rec s h =
      elim (Result-cases (sighashes_from crypto p 0 (p.inputs))) [
        | inr (bad, e) ↦ absurd (ground arith)
        | inl (hashes, eh) ↦ elim (Result-cases (sign_all crypto rec hashes)) [
          | inr (bad, e) ↦ absurd (ground arith)
          | inl (signatures, es) ↦
              elim (Result-cases (serialize_checked crypto p (rec.public_key) signatures)) [
                | inr (bad, e) ↦ absurd (ground arith)
                | inl (raw, er) ↦
                    elim (Result-cases (total_of input_total_overflows (pos 0) (p.spent_utxos))) [
                      | inr (bad, e) ↦ absurd (ground arith)
                      | inl (ti, ei) ↦
                          elim (Result-cases
                            (total_of output_total_overflows (pos 0) (p.outputs))) [
                              | inr (bad, e) ↦ absurd (ground arith)
                              | inl (to, eo) ↦
                                  elim (Result-cases
                                    (choose_metadata details (first_output (p.outputs)) ti to)) [
                                      | inr (bad, e) ↦ absurd (ground arith)
                                      | inl (d, ed) ↦
                                          let (serialized, identified) =
                                            serialize_checked_ok p (rec.public_key) signatures raw
                                              er in
                                          record {
                                            hashes = hashes;
                                            total_input = ti;
                                            total_output = to;
                                            metadata = d;
                                            hashed = eh;
                                            signed = ground arith;
                                            serialized = ground arith;
                                            identified = ground arith;
                                            tracked = ground arith;
                                            added = ei;
                                            spent_added = eo;
                                            described = ed;
                                            filed = ground arith;
                                          }
                                    ]
                            ]
                    ]
              ]
        ]
      ]

  -- When the input IDs have 32 bytes and the counts and script lengths are 64-bit words, the error of
  -- `signP2QPKInputs` for a serialized transaction ID that does not match the tracked one never
  -- comes up, whatever the signatures are.
  pub serialize_checked-no-mismatch :
      (p : SpendParams) (pub_key : Bytes) (signatures : List Bytes)
      → IsWellFormed (signed_tx crypto p pub_key signatures)
      → serialize_checked crypto p pub_key signatures ≢ err txid_mismatch
  unfolding serialize_checked
  serialize_checked-no-mismatch p pub_key signatures wf h =
      elim (Result-cases (serialize_bip144 (signed_tx crypto p pub_key signatures))) [
        | inr (bad, e) ↦ ground arith
        | inl (raw, e) ↦ ground (
          arith,
          tx_id_from_bip144-serialize_bip144 sha256 (signed_tx crypto p pub_key signatures) raw wf
              e,
          bytes_eq_refl (spend_txid_of crypto p),
        )
      ]
