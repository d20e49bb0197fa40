-- ===== src/Address/Format.antt =====
-- address.go: the wallet's own addresses. `bech32.ConvertBits` of btcutil and SHA-256 are parameters.
use symbiont_wallet.Base.{
  ℕ, Bool, true, false, not, Option, none, some, [], ◌∷◌, length, ◌==◌, Result, ok, err, fail_if,
  ◌>>◌, ◌>>=◌, if◌then◌else◌,
}
use symbiont_wallet.Base.Bytes.{Bytes, bytes_eq, codes}
use symbiont_wallet.Address.Checksum.{bech32_const, bech32m_const}
use symbiont_wallet.Address.Codec.{
  Error, invalid_pub_key_length, invalid_address, wrong_hrp, taproot_detected, convert_failed,
  encode_generic, decode_generic,
}

-- `bech32.ConvertBits(data, from, to, pad)`, `none` for its error.
abbrev pub Convert : Type 0
Convert = Bytes → ℕ → ℕ → Bool → Option Bytes

pub data Network : Type 0 where
  mainnet testnet regtest : Network

abbrev pub network_eq : Network → Network → Bool
network_eq mainnet mainnet = true
network_eq mainnet testnet = false
network_eq mainnet regtest = false
network_eq testnet mainnet = false
network_eq testnet testnet = true
network_eq testnet regtest = false
network_eq regtest mainnet = false
network_eq regtest testnet = false
network_eq regtest regtest = true

-- `Network.HRP`.
abbrev pub hrp_of : Network → Bytes
hrp_of mainnet = codes "bq"
hrp_of testnet = codes "bqt"
hrp_of regtest = codes "bq"

-- `knownHRPs`.
unfoldable pub known_hrp : Bytes → Option Network
known_hrp hrp =
    if bytes_eq hrp (codes "bq")
    then some mainnet
    else if bytes_eq hrp (codes "bqt")
    then some testnet
    else none

-- `WitnessVersion` and `AddressLength`.
abbrev pub witness_version : ℕ
witness_version = 2

abbrev pub address_length : ℕ
address_length = 32

-- `constantForWitnessVersion`.
abbrev pub constant_for_witness_version : ℕ → ℕ
constant_for_witness_version v = if v == 0 then bech32_const else bech32m_const

-- `hash256`.
abbrev pub hash256 : (Bytes → Bytes) → Bytes → Bytes
hash256 sha256 data' = sha256 (sha256 data')

-- `encode`.
unfoldable pub encode : Convert → Bytes → Network → Result Error Bytes
encode convert_bits hash net = elim (convert_bits hash 8 5 true) [
  | none ↦ err convert_failed
  | some converted ↦
      encode_generic (hrp_of net) (witness_version ∷ converted)
        (constant_for_witness_version witness_version)
]

-- `FromPublicKeyOnNetwork`.
unfoldable pub from_public_key : Convert → (Bytes → Bytes) → Bytes → Network → Result Error Bytes
unfolding encode
from_public_key convert_bits sha256 pub_key net =
    fail_if (not (length pub_key == 32)) invalid_pub_key_length
    >> encode convert_bits (hash256 sha256 pub_key) net

-- The witness version and the program, for the constant that the checksum matched.
unfoldable pub decode_payload : Convert → Bytes → ℕ → Network → Result Error (Bytes × Network)
decode_payload convert_bits [] constant net = err invalid_address
decode_payload convert_bits (version ∷ program) constant net =
    fail_if (not (constant == constant_for_witness_version version)) invalid_address
    >> fail_if (version == 1) taproot_detected
    >> fail_if (not (version == witness_version)) invalid_address
    >> elim (convert_bits program 5 8 false) [
      | none ↦ err convert_failed
      | some decoded ↦
          fail_if (not (length decoded == address_length)) invalid_address >> ok (decoded, net)
    ]

-- `decode`.
unfoldable pub decode : Convert → Bytes → Result Error (Bytes × Network)
unfolding decode_payload known_hrp
decode convert_bits addr = elim (decode_generic addr) [
  | err e ↦ err invalid_address
  | ok ((hrp, payload), constant) ↦ elim (known_hrp hrp) [
    | none ↦ err wrong_hrp
    | some net ↦ decode_payload convert_bits payload constant net
  ]
]

-- `ToHash`.
unfoldable pub to_hash : Convert → Bytes → Result Error Bytes
unfolding decode
to_hash convert_bits addr = decode convert_bits addr >>= λ (hash, net). ok hash

-- `DecodeForNetwork`.
unfoldable pub decode_for_network : Convert → Bytes → Network → Result Error Bytes
unfolding decode
decode_for_network convert_bits addr net = decode convert_bits addr >>= λ (hash, got).
    fail_if (not (network_eq got net)) wrong_hrp >> ok hash

-- `ValidateAddress`.
unfoldable pub validate_address : Convert → Bytes → Result Error (Unit {0})
unfolding decode
validate_address convert_bits addr = decode convert_bits addr >>= λ _. ok tt

-- `MatchesPublicKey`.
unfoldable pub matches_public_key : Convert → (Bytes → Bytes) → Bytes → Bytes → Result Error Bool
unfolding decode
matches_public_key convert_bits sha256 addr pub_key =
    fail_if (not (length pub_key == 32)) invalid_pub_key_length
    >> (decode convert_bits addr >>= λ (decoded, net).
        ok (bytes_eq decoded (hash256 sha256 pub_key)))
