-- ===== src/Wallet/MessageTests.antt =====
-- A derived address that signs a message, with key generation that ignores what it draws.
use symbiont_wallet.Base.{
  ◌≡◌, refl, ap, ◌∙◌, Bool, true, false, Option, some, [], ◌∷◌, length, replicate, ok, err, Result,
  arith,
}
use symbiont_wallet.Base.Bytes.{Bytes, bytes_eq, bytes_eq_refl, codes}
use symbiont_wallet.Base.Decimal.{decimal, decimal_loop}
use symbiont_wallet.Address.Checksum.{
  create_checksum, five_bits, polymod, polymod_from, hrp_expand, polymod_step,
}
use symbiont_wallet.Address.Codec.{encode_generic}
use symbiont_wallet.Address.Regroup.{regroup}
use symbiont_wallet.Address.Format.{from_public_key, encode}
use symbiont_wallet.Keystore.Types.{AddressRecord, funded}
use symbiont_wallet.Keystore.Store.{Db, find_address}
use symbiont_wallet.Keystore.Generate.{Derived}
use symbiont_wallet.Keystore.Queries.{get_record, encrypt_seed}
use symbiont_wallet.Keystore.SortedList.{sorted_list_bolt}
use symbiont_wallet.Signer.Keys.{
  KeyPair, Keygen, done, draw, new_signer_from_seed, generate_with, check_draws, fill,
}
use symbiont_wallet.Signer.Seeded.{IsSeeded}
use symbiont_wallet.Wallet.Types.{Crypto}
use symbiont_wallet.Wallet.Messages.{Derivation, derive_address, sign_message, verify_signature}
use symbiont_wallet.Wallet.Verified.{IsCorrect, verify_signature-sign_message}

abbrev toy_keys : KeyPair
toy_keys = record { public_key = replicate 32 5; secret_key = replicate 64 6 }

abbrev toy_crypto : Crypto
toy_crypto = record {
  sha256 = λ b. replicate 32 (length b);
  convert_bits = regroup;
  gcm_open = λ nonce ct. some ct;
  oqs_sign = λ secret msg. some msg;
}

abbrev toy_derivation : Derivation
toy_derivation = record {
  hkdf = λ seed info n. some (replicate n 1);
  keygen = draw 48 48 (λ b. done (some toy_keys));
  gcm_seal = λ nonce text. text;
}

-- A signature is the message.
abbrev toy_verify : Bytes → Bytes → Bytes → Option Bool
toy_verify msg sig pub_key = some (bytes_eq msg sig)

abbrev made_with : Bytes → Keygen → Option KeyPair
made_with b (done r) = r
made_with b (draw n size k) = made_with b (k b)

keys_are :
    (seed : Bytes) (keys : KeyPair)
    → IsSeeded (toy_derivation.keygen) seed keys
    → some toy_keys ≡ some keys
keys_are seed keys (k, once, made) = ap (made_with seed) once ∙ ap (made_with seed) made

toy_derivation-IsCorrect : IsCorrect (toy_derivation.keygen) (toy_crypto.oqs_sign) toy_verify
toy_derivation-IsCorrect seed keys seeded =
    (ground (arith, keys_are seed keys seeded), λ msg. (msg, refl, ap some (bytes_eq_refl msg)))

abbrev nonce : Bytes
nonce = replicate 12 9

abbrev derived_of : {E : Type 0} → Result E Derived → Derived
derived_of (ok d) = d
derived_of (err e) = record { public_key = []; enc_seed = []; address = [] }

abbrev toy_derived : Derived
toy_derived = derived_of (derive_address toy_crypto toy_derivation (some nonce) (codes "m") 0)

derived : derive_address toy_crypto toy_derivation (some nonce) (codes "m") 0 ≡ ok toy_derived
unfolding derive_address decimal decimal_loop new_signer_from_seed generate_with check_draws fill
    from_public_key encode encrypt_seed encode_generic bytes_eq create_checksum five_bits polymod
    polymod_from hrp_expand polymod_step
derived = refl

abbrev toy_record : AddressRecord
toy_record = record {
  index = 0;
  address = codes "a";
  public_key = toy_derived.public_key;
  enc_seed_blob = toy_derived.enc_seed;
  state = funded;
  has_recoverable_balance = false;
  recoverable_outpoints = [];
  recovery_pending_outpoints = [];
  recovery_spend_txid = [];
  reserved = false;
  spend_txid = [];
}

abbrev toy_db : Db sorted_list_bolt
toy_db = record {
  addresses = ((0 ∷ [], toy_record) ∷ [], (tt, tt));
  meta = ([], tt);
  transactions = ([], tt);
  pending_broadcasts = ([], tt);
}

stored : get_record sorted_list_bolt (codes "a") toy_db ≡ ok toy_record
unfolding get_record find_address bytes_eq
stored = refl

verify_signature-sign_message_example :
    (sig : Bytes) × (sign_message toy_crypto sorted_list_bolt (codes "a") (codes "hello") toy_db
      ≡ ok (toy_derived.public_key, sig))
    × (verify_signature (toy_crypto.sha256) toy_verify (codes "hello") sig (toy_derived.public_key)
        ≡ ok true)
verify_signature-sign_message_example =
    verify_signature-sign_message toy_crypto toy_derivation sorted_list_bolt toy_verify nonce
      (codes "m") 0 toy_derived toy_record (codes "a") (codes "hello") toy_db
      toy_derivation-IsCorrect (λ n t e. refl) refl derived stored refl refl refl
