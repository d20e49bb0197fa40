-- ===== src/Wallet/Verified.antt =====
-- wallet.go: what `SignMessage` signs for a derived address, `VerifySignature` accepts.
use symbiont_wallet.Base.{
  length-append, [], ◌∷◌, ℕ, ◌≡◌, refl, ap, ◌∙◌, Bool, true, inl, inr, Option, some, ◌++◌, length,
  take, drop, ok, Result-cases, Option-cases, arith,
}
use symbiont_wallet.Base.Bytes.{Bytes, codes}
use symbiont_wallet.Base.Decimal.{decimal}
use symbiont_wallet.Address.Format.{mainnet, from_public_key}
use symbiont_wallet.Keystore.Types.{AddressRecord, funded}
use symbiont_wallet.Keystore.Bolt.{Bolt}
use symbiont_wallet.Keystore.Store.{Db}
use symbiont_wallet.Keystore.Generate.{Derived}
use symbiont_wallet.Keystore.Queries.{get_record, decrypt_seed, encrypt_seed}
use symbiont_wallet.Signer.Keys.{
  seed_size, KeyPair, Keygen, system, new_signer_from_seed, import_signer, sign, verify,
}
use symbiont_wallet.Signer.Seeded.{IsSeeded, new_signer_from_seed_exact}
use symbiont_wallet.Wallet.Types.{Crypto}
use symbiont_wallet.Wallet.Messages.{
  canonical_message_hash, Derivation, verify_signature, derive_address, sign_message,
}

take-append : (xs ys : Bytes) → take (length xs) (xs ++ ys) ≡ xs
take-append [] ys = refl
take-append (x ∷ xs) ys = ap (λ (l : Bytes). x ∷ l) (take-append xs ys)

drop-append : (xs ys : Bytes) → drop (length xs) (xs ++ ys) ≡ ys
drop-append [] ys = refl
drop-append (x ∷ xs) ys = drop-append xs ys

-- A signature scheme that is correct on the keys that key generation makes: its secret keys have 64
-- bytes, each signs every message, and the public key accepts the signature.
abbrev pub IsCorrect :
    Keygen → (Bytes → Bytes → Option Bytes) → (Bytes → Bytes → Bytes → Option Bool) → Type 0
IsCorrect keygen oqs_sign oqs_verify =
    (seed : Bytes) (keys : KeyPair)
    → IsSeeded keygen seed keys
    → (length (keys.secret_key) ≡ 64)
      × ((msg : Bytes)
          → (sig : Bytes) × (oqs_sign (keys.secret_key) msg ≡ some sig)
            × (oqs_verify msg sig (keys.public_key) ≡ some true))

module _ (crypto : Crypto) (d : Derivation) where
  open crypto use {sha256, gcm_open, oqs_sign, convert_bits}

  seed_sized :
      (seed : Bytes) (keys : KeyPair)
      → (new_signer_from_seed true true true (d.keygen) seed system).0 ≡ ok keys
      → length seed ≡ seed_size
  unfolding new_signer_from_seed
  seed_sized seed keys e = ground arith

  -- The keys behind an address that was derived.
  derived_keys :
      (nonce master_seed : Bytes) (index : ℕ) (made : Derived)
      → derive_address crypto d (some nonce) master_seed index ≡ ok made
      → (seed : Bytes) × (keys : KeyPair) × ((new_signer_from_seed true true true
            (d.keygen)
            seed
            system).0
          ≡ ok keys)
        × (made.public_key ≡ keys.public_key)
        × (length (keys.public_key) ≡ 32)
        × (made.enc_seed ≡ nonce ++ d.gcm_seal nonce (keys.secret_key))
  unfolding derive_address
  derived_keys nonce master_seed index made h =
      elim (Option-cases (d.hkdf master_seed (codes "qoge-key-" ++ decimal index) seed_size)) [
        | inl e ↦ absurd (ground arith)
        | inr (seed, e) ↦
            elim (Result-cases ((new_signer_from_seed true true true (d.keygen) seed system).0)) [
              | inr (bad, es) ↦ absurd (ground arith)
              | inl (keys, es) ↦
                  elim (Result-cases
                    (from_public_key convert_bits sha256 (keys.public_key) mainnet)) [
                      | inr (bad, ea) ↦ absurd (ground arith)
                      | inl (addr, ea) ↦
                          let enc : encrypt_seed (d.gcm_seal) (some nonce) (keys.secret_key)
                              ≡ ok (nonce ++ d.gcm_seal nonce (keys.secret_key)) =
                            unfold encrypt_seed in refl in
                          (
                            seed,
                            keys,
                            es,
                            ground arith,
                            unfold from_public_key in ground arith,
                            ground (arith, enc),
                          )
                    ]
            ]
      ]

  -- Decryption undoes the encryption of a seed.
  decrypt_seed-encrypt_seed :
      (nonce text : Bytes)
      → ((n t : Bytes) → length n ≡ 12 → gcm_open n (d.gcm_seal n t) ≡ some t)
      → length nonce ≡ 12
      → decrypt_seed gcm_open (nonce ++ d.gcm_seal nonce text) ≡ ok text
  unfolding decrypt_seed
  decrypt_seed-encrypt_seed nonce text opens twelve = ground (
    arith,
    length-append nonce (d.gcm_seal nonce text),
    take-append nonce (d.gcm_seal nonce text),
    drop-append nonce (d.gcm_seal nonce text),
    opens nonce text twelve,
  )

  signs_with :
      (bolt : Bolt) (addr message secret sig : Bytes) (rec : AddressRecord) (db : Db bolt)
      → get_record bolt addr db ≡ ok rec
      → rec.state ≡ funded
      → decrypt_seed gcm_open (rec.enc_seed_blob) ≡ ok secret
      → length secret ≡ 64
      → length (rec.public_key) ≡ 32
      → oqs_sign secret (canonical_message_hash sha256 message) ≡ some sig
      → sign_message crypto bolt addr message db ≡ ok (rec.public_key, sig)
  signs_with bolt addr message secret sig rec db stored is_funded opened long sized signed =
      let imported : import_signer true secret (rec.public_key)
          ≡ ok (record { public_key = rec.public_key; secret_key = secret }) =
        unfold import_signer in ground arith in
      let made : sign oqs_sign (record { public_key = rec.public_key; secret_key = secret })
            (canonical_message_hash sha256 message)
          ≡ ok sig =
        unfold sign in ground arith in
      unfold sign_message in ground (arith, imported, made)

  -- Suppose key generation makes keys that sign correctly, and `gcm.Open` undoes `gcm.Seal`. Then for
  -- an address that `deriveAddress` made, while it is FUNDED and its record holds the derived keys,
  -- `SignMessage` signs every message, and `VerifySignature` accepts the signature for the public key
  -- it returns, which is the derived one.
  pub verify_signature-sign_message :
      (bolt : Bolt) (oqs_verify : Bytes → Bytes → Bytes → Option Bool) (nonce master_seed : Bytes)
      (index : ℕ) (made : Derived) (rec : AddressRecord) (addr message : Bytes) (db : Db bolt)
      → IsCorrect (d.keygen) oqs_sign oqs_verify
      → ((n t : Bytes) → length n ≡ 12 → gcm_open n (d.gcm_seal n t) ≡ some t)
      → length nonce ≡ 12
      → derive_address crypto d (some nonce) master_seed index ≡ ok made
      → get_record bolt addr db ≡ ok rec
      → rec.state ≡ funded
      → rec.public_key ≡ made.public_key
      → rec.enc_seed_blob ≡ made.enc_seed
      → (sig : Bytes) × (sign_message crypto bolt addr message db ≡ ok (made.public_key, sig))
        × (verify_signature sha256 oqs_verify message sig (made.public_key) ≡ ok true)
  verify_signature-sign_message bolt oqs_verify nonce master_seed index made rec addr message db
        correct opens twelve derived stored is_funded same_key same_blob =
      let (seed, keys, es, pub_same, sized, enc) =
        derived_keys nonce master_seed index made derived in
      let seeded =
        (new_signer_from_seed_exact true (d.keygen) seed system keys (seed_sized seed keys es)).0
          es in
      let (secret_sized, signs) = correct seed keys seeded in
      let hash = canonical_message_hash sha256 message in
      let (sig, signed, accepted) = signs hash in
      let opened : decrypt_seed gcm_open (rec.enc_seed_blob) ≡ ok (keys.secret_key) =
        ap (decrypt_seed gcm_open) (same_blob ∙ enc)
        ∙ decrypt_seed-encrypt_seed nonce (keys.secret_key) opens twelve in
      (
        sig,
        signs_with bolt addr message (keys.secret_key) sig rec db stored is_funded opened
              secret_sized (ap length (same_key ∙ pub_same) ∙ sized) signed
            ∙ ap (λ (k : Bytes). ok (k, sig)) same_key,
        unfold verify_signature verify in ground (arith, pub_same, accepted),
      )
