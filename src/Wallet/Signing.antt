-- ===== src/Wallet/Signing.antt =====
-- wallet.go: `signP2QPKInputs`, from the validated parameters to the stored transaction.
use symbiont_wallet.Base.{
  ℕ, Bool, true, false, not, ◌||◌, Option, none, some, List, [], ◌∷◌, ◌++◌, length, ◌==◌, Result,
  ok, err, fail_if, ◌>>◌, ◌>>=◌, if◌then◌else◌,
}
use symbiont_wallet.Base.Bytes.{Bytes, bytes_eq, codes}
use symbiont_wallet.Base.Hex.{hex_encode}
use symbiont_wallet.Base.Int64.{ℤ, pos, add64, sub64, ltb_ℤ, leb_ℤ, eq_ℤ}
use symbiont_wallet.Keystore.Types.{AddressRecord, RecoveryOutpoint, PendingBroadcast}
use symbiont_wallet.Keystore.Types as K
use symbiont_wallet.Keystore.Bolt.{Bolt}
use symbiont_wallet.Keystore.Store.{Db}
use symbiont_wallet.Keystore.Pending.{is_empty, kind_spend, kind_recovery}
use symbiont_wallet.Keystore.Lifecycle.{mark_spend_pending}
use symbiont_wallet.Keystore.Recovery.{mark_recovery_pending}
use symbiont_wallet.Keystore.Queries.{decrypt_seed}
use symbiont_wallet.TxBuilder.Types.{TxOutput, Witness, SignedTx}
use symbiont_wallet.TxBuilder.Fees.{max_int64}
use symbiont_wallet.TxBuilder.Serialize.{serialize_bip144}
use symbiont_wallet.TxBuilder.TxId.{tx_id_from_bip144, p2qpk_tx_id}
use symbiont_wallet.Wallet.Types.{
  Crypto, SpendParams, Details, Error, keystore_error, builder_error, bad_secret_key,
  bad_public_key, sign_failed, txid_mismatch, input_total_overflows, output_total_overflows,
  outputs_exceed_inputs, metadata_mismatch,
}
use symbiont_wallet.Wallet.Sighash.{sighashes_from}
use symbiont_wallet.Wallet.Validate.{validate, recovery_outpoints_from}

-- The guarded sums of inputs and of outputs.
unfoldable pub total_of : Error → ℤ → List TxOutput → Result Error ℤ
total_of e total [] = ok total
total_of e total (o ∷ os) =
    fail_if (ltb_ℤ (sub64 (pos max_int64) (o.amount)) total) e
    >> total_of e (add64 total (o.amount)) os

-- The first output, which the validation has made sure of.
abbrev pub first_output : List TxOutput → TxOutput
first_output [] = record { amount = pos 0; script = [] }
first_output (o ∷ os) = o

-- The metadata to file: the given one, once it matches, or one made of the first output.
unfoldable pub choose_metadata : Option Details → TxOutput → ℤ → ℤ → Result Error Details
choose_metadata none first total_input total_output = ok (record {
  destination = codes "script:" ++ hex_encode (first.script);
  destination_type = codes "script";
  amount_sats = first.amount;
  fee_sats = if leb_ℤ total_output total_input then sub64 total_input total_output else pos 0;
})
choose_metadata (some d) first total_input total_output =
    fail_if (ltb_ℤ total_input total_output) outputs_exceed_inputs
    >> fail_if
        (is_empty (d.destination)
          || is_empty (d.destination_type)
          || not (eq_ℤ (d.amount_sats) (first.amount))
          || not (eq_ℤ (d.fee_sats) (sub64 total_input total_output)))
        metadata_mismatch
    >> ok d

abbrev pub kind_of : Bool → Bytes
kind_of true = kind_recovery
kind_of false = kind_spend

-- What a signing returns, and what it files.
pub record Signed : Type 0 where
  pub pub_key : Bytes
  pub signatures : List Bytes
  pub raw : Bytes
  pub txid : Bytes
  pub pending : PendingBroadcast

module _ (crypto : Crypto) where
  open crypto use {sha256, gcm_open, oqs_sign}

  -- `slhdsa.ImportSigner` and `Sign` of signer/slhdsa.go, for each hash.
  unfoldable pub sign_each : Bytes → Bytes → List Bytes → Result Error (List Bytes)
  sign_each secret pub_key [] = ok []
  sign_each secret pub_key (h ∷ hs) = elim (oqs_sign secret h) [
    | none ↦ err sign_failed
    | some sig ↦ sign_each secret pub_key hs >>= λ sigs. ok (sig ∷ sigs)
  ]

  unfoldable pub sign_all : AddressRecord → List Bytes → Result Error (List Bytes)
  unfolding sign_each
  sign_all rec hashes = elim (decrypt_seed gcm_open (rec.enc_seed_blob)) [
    | err e ↦ err (keystore_error e)
    | ok secret ↦
        fail_if (not (length secret == 64)) bad_secret_key
        >> fail_if (not (length (rec.public_key) == 32)) bad_public_key
        >> sign_each secret (rec.public_key) hashes
  ]

  abbrev pub witnesses_of : Bytes → List Bytes → List Witness
  witnesses_of pub_key [] = []
  witnesses_of pub_key (s ∷ ss) = record { sig = s; pub_key = pub_key } ∷ witnesses_of pub_key ss

  -- The transaction that is serialized.
  abbrev pub signed_tx : SpendParams → Bytes → List Bytes → SignedTx
  signed_tx p pub_key signatures = record {
    n_version = p.n_version;
    n_lock_time = p.n_lock_time;
    inputs = p.inputs;
    outputs = p.outputs;
    witnesses = witnesses_of pub_key signatures;
  }

  abbrev pub spend_txid_of : SpendParams → Bytes
  spend_txid_of p = p2qpk_tx_id sha256 (p.n_version) (p.inputs) (p.outputs) (p.n_lock_time)

  -- The bytes and their ID, which has to be the one that the fields have.
  unfoldable pub serialize_checked : SpendParams → Bytes → List Bytes → Result Error Bytes
  serialize_checked p pub_key signatures =
      elim (serialize_bip144 (signed_tx p pub_key signatures)) [
        | err e ↦ err (builder_error e)
        | ok raw ↦ elim (tx_id_from_bip144 sha256 raw) [
          | err e ↦ err txid_mismatch
          | ok id ↦ fail_if (not (bytes_eq id (spend_txid_of p))) txid_mismatch >> ok raw
        ]
      ]

  abbrev pub pending_of : Bool → SpendParams → Bytes → Details → ℕ → PendingBroadcast
  pending_of recovery p raw d now = record {
    txid = spend_txid_of p;
    raw_hex = hex_encode raw;
    kind = kind_of recovery;
    source_address = p.from_addr;
    destination = d.destination;
    destination_type = d.destination_type;
    amount_sats = d.amount_sats;
    fee_sats = d.fee_sats;
    signed_at = now;
  }

  -- From the source's record on, up to the write.
  unfoldable pub prepare :
      Bool → SpendParams → Option Details → ℕ → AddressRecord → Result Error Signed
  unfolding sign_all serialize_checked total_of choose_metadata
  prepare recovery p details now rec = sighashes_from crypto p 0 (p.inputs) >>= λ hashes.
      sign_all rec hashes >>= λ signatures.
      serialize_checked p (rec.public_key) signatures >>= λ raw.
      total_of input_total_overflows (pos 0) (p.spent_utxos) >>= λ total_input.
      total_of output_total_overflows (pos 0) (p.outputs) >>= λ total_output.
      choose_metadata details (first_output (p.outputs)) total_input total_output >>= λ d.
      ok (record {
        pub_key = rec.public_key;
        signatures = signatures;
        raw = raw;
        txid = spend_txid_of p;
        pending = pending_of recovery p raw d now;
      })

  module _ (bolt : Bolt) where
    -- The transition in the keystore that files the transaction.
    unfoldable pub finalize :
        Bool → SpendParams → Signed → Db bolt → Result K.Error (Unit {0}) × Db bolt
    finalize true p s db =
        mark_recovery_pending bolt (p.from_addr) (p.change_addr) (s.txid)
          (recovery_outpoints_from (p.inputs) (p.spent_utxos)) (s.pending ∷ []) db
    finalize false p s db =
        mark_spend_pending bolt (p.from_addr) (p.change_addr) (s.txid) (s.pending ∷ []) db

    abbrev pub outcome :
        Signed → Result K.Error (Unit {0}) × Db bolt → Result Error Signed × Db bolt
    outcome s (ok u, db) = (ok s, db)
    outcome s (err e, db) = (err (keystore_error e), db)

    -- `signP2QPKInputs`: `recovery` tells the two entry points apart, `now` is the clock.
    unfoldable pub sign_p2qpk_inputs :
        Bool → SpendParams → Option Details → ℕ → Db bolt → Result Error Signed × Db bolt
    unfolding prepare finalize
    sign_p2qpk_inputs recovery p details now db =
        elim (validate crypto bolt recovery p db >>= prepare recovery p details now) [
          | err e ↦ (err e, db)
          | ok s ↦ outcome s (finalize recovery p s db)
        ]
