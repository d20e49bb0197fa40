-- ===== src/Wallet/Messages.antt =====
-- wallet.go: the derivation of an address, and signatures of messages.
use symbiont_wallet.Base.{
  ℕ, Bool, true, not, Option, none, some, List, ◌++◌, ltb, ◌==◌, Result, ok, err, fail_if, ◌>>◌,
  ◌>>=◌,
}
use symbiont_wallet.Base.Bytes.{Bytes, codes}
use symbiont_wallet.Base.Decimal.{decimal}
use symbiont_wallet.Address.Format.{mainnet, from_public_key}
use symbiont_wallet.Keystore.Types.{fresh, funded, state_eq}
use symbiont_wallet.Keystore.Bolt.{Bolt}
use symbiont_wallet.Keystore.Store.{Db}
use symbiont_wallet.Keystore.Generate.{Derived}
use symbiont_wallet.Keystore.Queries.{get_record, decrypt_seed, encrypt_seed}
use symbiont_wallet.Signer.Keys.{
  seed_size, Keygen, system, new_signer_from_seed, import_signer, sign, verify,
}
use symbiont_wallet.TxBuilder.Types.{TxOutput}
use symbiont_wallet.Wallet.Types.{
  Crypto, Error, keystore_error, address_error, signer_error, hkdf_failed, change_not_indexed,
  from_not_funded, change_not_fresh, change_reserved, change_output_missing,
  change_output_ambiguous,
}
use symbiont_wallet.Wallet.Sighash.{p2qpk_script_pub_key}
use symbiont_wallet.Wallet.Validate.{count_matches}

-- `MessagePrefix`.
abbrev pub message_prefix : Bytes
message_prefix = codes "Qogecoin Signed Message:"

-- `canonicalMessageHash`.
unfoldable pub canonical_message_hash : (Bytes → Bytes) → Bytes → Bytes
canonical_message_hash sha256 message = sha256 (sha256 (message_prefix ++ sha256 message))

-- The errors of other packages, wrapped.
abbrev pub from_result : {E A : Type 0} → (E → Error) → Result E A → Result Error A
from_result wrap (ok a) = ok a
from_result wrap (err e) = err (wrap e)

-- What the derivation calls: HKDF-SHA256 with its info and length, key generation, and `gcm.Seal`
-- with 12 random bytes.
pub record Derivation : Type 0 where
  pub hkdf : Bytes → Bytes → ℕ → Option Bytes
  pub keygen : Keygen
  pub gcm_seal : Bytes → Bytes → Bytes

-- `QOGETransaction` and `SignedTransaction`.
pub record QogeTransaction : Type 0 where
  pub from : Bytes
  pub to : Bytes
  pub amount : ℕ
  pub change : Bytes
  pub outputs : List TxOutput
  pub message_id : Bytes

pub record SignedTransaction : Type 0 where
  pub tx : QogeTransaction
  pub public_key : Bytes
  pub signature : Bytes

-- `VerifySignature`.
unfoldable pub verify_signature :
    (Bytes → Bytes)
    → (Bytes → Bytes → Bytes → Option Bool)
    → Bytes
    → Bytes
    → Bytes
    → Result Error Bool
unfolding canonical_message_hash
verify_signature sha256 oqs_verify message sig pub_key =
    from_result signer_error
      (verify true oqs_verify (canonical_message_hash sha256 message) sig pub_key)

module _ (crypto : Crypto) where
  open crypto use {sha256, convert_bits, gcm_open, oqs_sign}

  -- `deriveAddress`, with the 12 bytes that are read for it.
  unfoldable pub derive_address : Derivation → Option Bytes → Bytes → ℕ → Result Error Derived
  derive_address d nonce master_seed index =
      elim (d.hkdf master_seed (codes "qoge-key-" ++ decimal index) seed_size) [
        | none ↦ err hkdf_failed
        | some child_seed ↦
            from_result signer_error
              ((new_signer_from_seed true true true (d.keygen) child_seed system).0)
            >>= λ keys.
                from_result address_error
                  (from_public_key convert_bits sha256 (keys.public_key) mainnet)
                >>= λ addr.
                    from_result keystore_error (encrypt_seed (d.gcm_seal) nonce (keys.secret_key))
                    >>= λ enc.
                        ok (record { public_key = keys.public_key; enc_seed = enc; address = addr })
      ]

  module _ (bolt : Bolt) where
    -- `signMessage`, which `SignMessage` calls under a lock.
    unfoldable pub sign_message : Bytes → Bytes → Db bolt → Result Error (Bytes × Bytes)
    unfolding canonical_message_hash
    sign_message from_addr message db =
        from_result keystore_error (get_record bolt from_addr db) >>= λ rec.
        fail_if (not (state_eq (rec.state) funded)) from_not_funded
        >> (from_result keystore_error (decrypt_seed gcm_open (rec.enc_seed_blob)) >>= λ raw_seed.
            from_result signer_error (import_signer true raw_seed (rec.public_key)) >>= λ keys.
            from_result signer_error (sign oqs_sign keys (canonical_message_hash sha256 message))
            >>= λ sig. ok (rec.public_key, sig))

    -- `SignTransaction`.
    unfoldable pub sign_transaction : QogeTransaction → Db bolt → Result Error SignedTransaction
    unfolding sign_message
    sign_transaction tx db = elim (get_record bolt (tx.change) db) [
      | err e ↦ err change_not_indexed
      | ok change ↦
          fail_if (not (state_eq (change.state) fresh)) change_not_fresh
          >> fail_if (change.reserved) change_reserved
          >> (p2qpk_script_pub_key crypto (tx.change) >>= λ script.
              let matches = count_matches script (tx.outputs) in
              fail_if (matches == 0) change_output_missing
              >> fail_if (ltb 1 matches) change_output_ambiguous
              >> (sign_message (tx.from) (tx.message_id) db >>= λ (public_key, signature).
                  ok (record { tx = tx; public_key = public_key; signature = signature })))
    ]
