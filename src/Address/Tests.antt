-- ===== src/Address/Tests.antt =====
-- The decoders on a mainnet address of the wallet.
use symbiont_wallet.Base.{◌≡◌, refl, none, ok, replicate}
use symbiont_wallet.Base.Bytes.{Bytes, bytes_eq, codes}
use symbiont_wallet.Address.Checksum.{
  xor_gens, polymod_step, polymod_from, polymod, hrp_expand, verify_checksum,
}
use symbiont_wallet.Address.Codec.{
  index_from, charset_rev, is_printable, from_chars, split_last, decode_parts, decode_generic,
}
use symbiont_wallet.Address.Format.{mainnet, known_hrp, decode_payload, decode}
use symbiont_wallet.Address.Destination.{decode_mainnet_destination}
use symbiont_wallet.Address.Agreement.{
  own_destination, decode_mainnet_destination-decode, decode-decode_mainnet_destination,
}
use symbiont_wallet.Address.Regroup.{regroup}

abbrev address_of_nines : Bytes
address_of_nines = codes "bq1zpyysjzgfpyysjzgfpyysjzgfpyysjzgfpyysjzgfpyysjzgfpyyshhrpud"

decoded : decode regroup address_of_nines ≡ ok (replicate 32 9, mainnet)
unfolding decode decode_payload known_hrp decode_generic split_last decode_parts is_printable
    from_chars charset_rev index_from verify_checksum hrp_expand polymod polymod_from polymod_step
    xor_gens bytes_eq
decoded = refl

decode_mainnet_destination-decode_example :
    decode_mainnet_destination regroup (λ b. none) address_of_nines
    ≡ ok (own_destination (replicate 32 9))
decode_mainnet_destination-decode_example =
    decode_mainnet_destination-decode regroup (λ b. none) address_of_nines (replicate 32 9) refl
      decoded

decode-decode_mainnet_destination_example :
    (hash : Bytes) × (decode regroup address_of_nines ≡ ok (hash, mainnet))
    × (own_destination (replicate 32 9) ≡ own_destination hash)
decode-decode_mainnet_destination_example =
    decode-decode_mainnet_destination regroup (λ b. none) address_of_nines
      (own_destination (replicate 32 9)) decode_mainnet_destination-decode_example refl
