-- ===== src/Address/Destination.antt =====
-- address.go: `DecodeMainnetDestination`. `base58.CheckDecode` of btcutil is a parameter too.
use symbiont_wallet.Base.{
  ℕ, ◌+◌, false, not, ◌&&◌, ◌||◌, Option, none, some, [], ◌∷◌, ◌++◌, length, ltb, ◌==◌, Result, ok,
  err, fail_if, ◌>>◌, ◌>>=◌, if◌then◌else◌,
}
use symbiont_wallet.Base.Bytes.{Bytes, bytes_eq}
use symbiont_wallet.Base.ParseInt.{trim_space}
use symbiont_wallet.Address.Codec.{Error, invalid_address, wrong_hrp, decode_generic}
use symbiont_wallet.Address.Format.{
  Convert, hrp_of, mainnet, witness_version, address_length, constant_for_witness_version,
}

pub data DestinationType : Type 0 where
  p2pkh p2sh p2wpkh p2wsh p2tr p2qpk : DestinationType

pub record Destination : Type 0 where
  pub type_ : DestinationType
  pub script_pub_key : Bytes

-- `base58.CheckDecode`: the payload and the version, `none` for its errors.
abbrev pub CheckDecode : Type 0
CheckDecode = Bytes → Option (Bytes × ℕ)

abbrev pub pub_key_hash_prefix : ℕ
pub_key_hash_prefix = 120

abbrev pub script_hash_prefix : ℕ
script_hash_prefix = 102

-- The forms of Base58Check.
unfoldable pub legacy_destination : Bytes → ℕ → Result Error Destination
legacy_destination payload version =
    fail_if (not (length payload == 20)) invalid_address
    >> (if version == pub_key_hash_prefix
        then ok (record {
          type_ = p2pkh;
          script_pub_key = 0x76 ∷ 0xa9 ∷ 0x14 ∷ (payload ++ (0x88 ∷ 0xac ∷ []));
        })
        else if version == script_hash_prefix
        then ok (record { type_ = p2sh; script_pub_key = 0xa9 ∷ 0x14 ∷ (payload ++ (0x87 ∷ [])) })
        else err invalid_address)

-- The `switch` over witness version and program length.
unfoldable pub destination_type : ℕ → ℕ → Result Error DestinationType
destination_type version n =
    if version == 0 && n == 20
    then ok p2wpkh
    else if version == 0 && n == 32
    then ok p2wsh
    else if version == 1 && n == 32
    then ok p2tr
    else if version == witness_version && n == address_length
    then ok p2qpk
    else err invalid_address

-- The forms of SegWit, from the decoded data.
unfoldable pub segwit_destination : Convert → Bytes → ℕ → Result Error Destination
unfolding destination_type
segwit_destination convert_bits [] constant = err invalid_address
segwit_destination convert_bits (version ∷ data') constant =
    fail_if (ltb 16 version) invalid_address
    >> fail_if (not (constant == constant_for_witness_version version)) invalid_address
    >> elim (convert_bits data' 5 8 false) [
      | none ↦ err invalid_address
      | some program ↦
          fail_if (ltb (length program) 2 || ltb 40 (length program)) invalid_address
          >> (destination_type version (length program) >>= λ type'. ok (record {
            type_ = type';
            script_pub_key =
                (if version == 0 then 0 else 0x50 + version) ∷ length program ∷ program;
          }))
    ]

-- `DecodeMainnetDestination`.
unfoldable pub decode_mainnet_destination : Convert → CheckDecode → Bytes → Result Error Destination
unfolding legacy_destination segwit_destination
decode_mainnet_destination convert_bits check_decode addr =
    fail_if (length addr == 0 || not (bytes_eq (trim_space addr) addr)) invalid_address
    >> elim (check_decode addr) [
      | some (payload, version) ↦ legacy_destination payload version
      | none ↦ elim (decode_generic addr) [
        | err e ↦ err invalid_address
        | ok ((hrp, data'), constant) ↦
            fail_if (not (bytes_eq hrp (hrp_of mainnet))) wrong_hrp
            >> segwit_destination convert_bits data' constant
      ]
    ]
