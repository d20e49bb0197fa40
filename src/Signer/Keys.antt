-- ===== src/Signer/Keys.antt =====
-- slhdsa.go. liboqs is a parameter: its key generation is a program that asks its random source for
-- bytes, and its signature and verification are functions. `rngMu` makes each function one step.
use symbiont_wallet.Base.{
  ℕ, Bool, true, false, not, ◌||◌, Option, none, some, length, replicate, ◌==◌, Result, ok, err,
  fail_if, ◌>>◌, if◌then◌else◌,
}
use symbiont_wallet.Base.Bytes.{Bytes}

-- `SeedSize`, `PublicKeySize` and `SecretKeySize`.
abbrev pub seed_size : ℕ
seed_size = 48

abbrev pub public_key_size : ℕ
public_key_size = 32

abbrev pub secret_key_size : ℕ
secret_key_size = 64

-- A key pair.
pub record KeyPair : Type 0 where
  pub public_key : Bytes
  pub secret_key : Bytes

-- `GenerateKeyPair`: each draw asks for `n` bytes in a buffer of `size` bytes, and goes on with what
-- the buffer then holds. `none` is its error.
pub data Keygen : Type 0 where
  done : Option KeyPair → Keygen
  draw : (n size : ℕ) → (Bytes → Keygen) → Keygen

pub data Error : Type 0 where
  seed_length install_failed init_failed keygen_failed : Error
  drawn_twice wrong_draw never_drawn : Error
  secret_key_length public_key_length sign_failed verify_failed : Error

-- The global random source of liboqs: the system's, or the callback that replaces it.
pub data Rng : Type 0 where
  system callback : Rng

-- `called` and `cbErr`, which the callback shares with the function.
pub record Draws : Type 0 where
  pub called : Bool
  pub failed : Option Error

-- The callback: what it leaves in the buffer, and its two variables.
unfoldable pub fill : Bytes → ℕ → ℕ → Draws → Bytes × Draws
fill seed n size d =
    if d.called
    then (replicate size 0, record d { failed = some drawn_twice })
    else if not (n == seed_size) || not (size == seed_size)
    then (replicate size 0, record { called = true; failed = some wrong_draw })
    else (seed, record d { called = true })

-- Key generation under the callback.
unfoldable pub generate_with : Bytes → Keygen → Draws → Option KeyPair × Draws
unfolding fill
generate_with seed (done r) d = (r, d)
generate_with seed (draw n size k) d =
    let (bytes, d') = fill seed n size d in generate_with seed (k bytes) d'

-- The checks that follow, in their order.
unfoldable pub check_draws : Option KeyPair → Draws → Result Error KeyPair
check_draws none d = err keygen_failed
check_draws (some k) d = elim (d.failed) [
  | some e ↦ err e
  | none ↦ fail_if (not (d.called)) never_drawn >> ok k
]

-- `NewSignerFromSeed`, with whether the callback can be installed, whether the algorithm can be
-- initialised, and whether the switch back to the system's source succeeds. A context is its keys.
unfoldable pub new_signer_from_seed :
    Bool → Bool → Bool → Keygen → Bytes → Rng → Result Error KeyPair × Rng
unfolding generate_with check_draws
new_signer_from_seed installs inits switches keygen seed rng =
    if not (length seed == seed_size)
    then (err seed_length, rng)
    else if not installs
    then (err install_failed, rng)
    else (let (keys, draws) =
          generate_with seed keygen (record { called = false; failed = none }) in
        (
          if inits then check_draws keys draws else err init_failed,
          if switches then system else callback,
        ))

-- `NewSigner`, with what `GenerateKeyPair` returns under the system's source.
unfoldable pub new_signer : Bool → Option KeyPair → Result Error KeyPair
new_signer false keys = err init_failed
new_signer true none = err keygen_failed
new_signer true (some k) = ok k

-- `ImportSigner`.
unfoldable pub import_signer : Bool → Bytes → Bytes → Result Error KeyPair
import_signer inits secret_key public_key =
    fail_if (not (length secret_key == secret_key_size)) secret_key_length
    >> fail_if (not (length public_key == public_key_size)) public_key_length
    >> fail_if (not inits) init_failed
    >> ok (record { public_key = public_key; secret_key = secret_key })

-- `Sign`, with the signature of liboqs under a secret key.
unfoldable pub sign : (Bytes → Bytes → Option Bytes) → KeyPair → Bytes → Result Error Bytes
sign oqs_sign signer msg = elim (oqs_sign (signer.secret_key) msg) [
  | none ↦ err sign_failed
  | some sig ↦ ok sig
]

-- `Verify`, with the verification of liboqs: message, signature, public key.
unfoldable pub verify :
    Bool → (Bytes → Bytes → Bytes → Option Bool) → Bytes → Bytes → Bytes → Result Error Bool
verify false oqs_verify msg signature public_key = err init_failed
verify true oqs_verify msg signature public_key = elim (oqs_verify msg signature public_key) [
  | none ↦ err verify_failed
  | some valid ↦ ok valid
]
