-- ===== src/Address/Agreement.antt =====
-- address.go: the wallet's decoder and the decoder of destinations agree on the wallet's addresses.
use symbiont_wallet.Base.{
  ℕ, suc, ◌≤◌, ◌≡◌, refl, sym, subst, true, false, not, ◌||◌, none, some, [], ◌∷◌, ◌++◌, map,
  length, All, All-append, ◌==◌, ok, Result-cases, Option-cases, inl, inr, arith,
}
use symbiont_wallet.Base.Bytes.{Bytes, bytes_eq, bytes_eq_iff, bytes_eq_refl}
use symbiont_wallet.Base.ParseInt.{trim_space}
use symbiont_wallet.Base.Digits.{IsSolid, trim_space-IsSolid}
use symbiont_wallet.Address.Codec.{
  lower, is_printable, index_from, charset, charset_rev, from_chars, split_last, decode_parts,
  decode_generic,
}
use symbiont_wallet.Address.Format.{
  Convert, Network, mainnet, testnet, hrp_of, known_hrp, decode_payload, decode,
}
use symbiont_wallet.Address.Destination.{
  Destination, p2qpk, CheckDecode, legacy_destination, destination_type, segwit_destination,
  decode_mainnet_destination,
}

is_printable-IsSolid : (s : Bytes) → is_printable s ≡ true → All IsSolid s
unfolding is_printable
is_printable-IsSolid [] h = tt
is_printable-IsSolid (c ∷ cs) h = (ground arith, is_printable-IsSolid cs (ground arith))

index_from-IsSolid :
    (i c : ℕ) (ds : Bytes) (v : ℕ) → All IsSolid ds → index_from i c ds ≡ some v → IsSolid c
unfolding index_from
index_from-IsSolid i c [] v hs h = absurd (ground arith)
index_from-IsSolid i c (d ∷ ds) v (hd, hs) h = ground (arith, index_from-IsSolid (suc i) c ds v hs)

charset-IsSolid : All IsSolid charset
charset-IsSolid = is_printable-IsSolid charset (unfold is_printable in refl)

from_chars-IsSolid : (s vs : Bytes) → from_chars s ≡ ok vs → All IsSolid s
unfolding from_chars charset_rev
from_chars-IsSolid [] vs h = tt
from_chars-IsSolid (c ∷ cs) vs h = elim (Option-cases (charset_rev c)) [
  | inl e ↦ absurd (ground arith)
  | inr (v, e) ↦ elim (Result-cases (from_chars cs)) [
    | inr (bad, e') ↦ absurd (ground arith)
    | inl (rest, e') ↦
        (index_from-IsSolid 0 c charset v charset-IsSolid e, from_chars-IsSolid cs rest e')
  ]
]

split_last_ok :
    (s before behind : Bytes) → split_last s ≡ some (before, behind) → s ≡ before ++ (b'1' ∷ behind)
unfolding split_last
split_last_ok [] before behind h = absurd (ground arith)
split_last_ok (c ∷ cs) before behind h = elim (Option-cases (split_last cs)) [
  | inl e ↦ ground arith
  | inr ((b, r), e) ↦ ground (arith, split_last_ok cs b r)
]

lower-IsSolid : (s : Bytes) → All IsSolid (map lower s) → All IsSolid s
lower-IsSolid [] h = tt
lower-IsSolid (c ∷ cs) (h, hs) = (ground arith, lower-IsSolid cs hs)

-- What `decodeGeneric` accepts has no white space, and at least eight characters.
decode_generic-IsSolid :
    (s hrp data' : Bytes) (constant : ℕ)
    → decode_generic s ≡ ok ((hrp, data'), constant)
    → All IsSolid s × (8 ≤ length s)
unfolding decode_generic decode_parts
decode_generic-IsSolid s hrp data' constant h = elim (Option-cases (split_last (map lower s))) [
  | inl e ↦ absurd (ground arith)
  | inr ((before, behind), e) ↦ elim (Result-cases (from_chars behind)) [
    | inr (bad, e') ↦ absurd (ground arith)
    | inl (values, e') ↦
        let printable : is_printable before ≡ true = ground arith in
        let solid =
          All-append IsSolid before (b'1' ∷ behind) (is_printable-IsSolid before printable)
            (refl, from_chars-IsSolid behind values e') in
        (
          lower-IsSolid s (
              subst (λ (l : Bytes). All IsSolid l)
                (sym (split_last_ok (map lower s) before behind e)) solid),
          ground arith,
        )
  ]
]

trimmed :
    (s hrp data' : Bytes) (constant : ℕ)
    → decode_generic s ≡ ok ((hrp, data'), constant)
    → (length s == 0 || not (bytes_eq (trim_space s) s)) ≡ false
trimmed s hrp data' constant h =
    let (solid, long) = decode_generic-IsSolid s hrp data' constant h in
    ground (arith, trim_space-IsSolid s solid, bytes_eq_refl s)

-- The destination of a hash that the wallet's own decoder returns.
abbrev pub own_destination : Bytes → Destination
own_destination hash = record { type_ = p2qpk; script_pub_key = 0x52 ∷ 0x20 ∷ hash }

decode_payload_net :
    (convert_bits : Convert) (payload hash : Bytes) (constant : ℕ) (net net' : Network)
    → decode_payload convert_bits payload constant net ≡ ok (hash, net')
    → net ≡ net'
unfolding decode_payload
decode_payload_net convert_bits [] hash constant net net' h = absurd (ground arith)
decode_payload_net convert_bits (version ∷ program) hash constant net net' h =
    elim (Option-cases (convert_bits program 5 8 false)) [
      | inl e ↦ absurd (ground arith)
      | inr (decoded, e) ↦ ground arith
    ]

payload_agrees :
    (convert_bits : Convert) (payload hash : Bytes) (constant : ℕ) (net : Network)
    → decode_payload convert_bits payload constant net ≡ ok (hash, net)
    → segwit_destination convert_bits payload constant ≡ ok (own_destination hash)
unfolding decode_payload segwit_destination destination_type
payload_agrees convert_bits [] hash constant net h = absurd (ground arith)
payload_agrees convert_bits (version ∷ program) hash constant net h =
    elim (Option-cases (convert_bits program 5 8 false)) [
      | inl e ↦ absurd (ground arith)
      | inr (decoded, e) ↦ ground arith
    ]

destination_agrees :
    (convert_bits : Convert) (payload : Bytes) (constant : ℕ) (d : Destination) (net : Network)
    → segwit_destination convert_bits payload constant ≡ ok d
    → d.type_ ≡ p2qpk
    → (hash : Bytes) × (decode_payload convert_bits payload constant net ≡ ok (hash, net))
      × (d ≡ own_destination hash)
unfolding decode_payload segwit_destination destination_type
destination_agrees convert_bits [] constant d net h t = absurd (ground arith)
destination_agrees convert_bits (version ∷ program) constant d net h t =
    elim (Option-cases (convert_bits program 5 8 false)) [
      | inl e ↦ absurd (ground arith)
      | inr (decoded, e) ↦ (decoded, ground arith, ground arith)
    ]

-- Whatever regroups bits and decodes Base58Check: an address that the wallet's decoder reads as a
-- mainnet hash, and that is no Base58Check address, is a P2QPK destination, and its script is
-- OP_2 and the hash.
pub decode_mainnet_destination-decode :
    (convert_bits : Convert) (check_decode : CheckDecode) (addr hash : Bytes)
    → check_decode addr ≡ none
    → decode convert_bits addr ≡ ok (hash, mainnet)
    → decode_mainnet_destination convert_bits check_decode addr ≡ ok (own_destination hash)
unfolding decode decode_mainnet_destination known_hrp
decode_mainnet_destination-decode convert_bits check_decode addr hash c h =
    elim (Result-cases (decode_generic addr)) [
      | inr (bad, e) ↦ absurd (ground arith)
      | inl (((hrp, payload), constant), e) ↦
          let clean = trimmed addr hrp payload constant e in
          ground (
            arith,
            clean,
            payload_agrees convert_bits payload hash constant mainnet,
            decode_payload_net convert_bits payload hash constant testnet mainnet,
          )
    ]

-- What `DecodeMainnetDestination` calls a P2QPK destination, the wallet's decoder reads as a
-- mainnet hash, and the script is OP_2 and that hash.
pub decode-decode_mainnet_destination :
    (convert_bits : Convert) (check_decode : CheckDecode) (addr : Bytes) (d : Destination)
    → decode_mainnet_destination convert_bits check_decode addr ≡ ok d
    → d.type_ ≡ p2qpk
    → (hash : Bytes) × (decode convert_bits addr ≡ ok (hash, mainnet)) × (d ≡ own_destination hash)
unfolding decode decode_mainnet_destination known_hrp
decode-decode_mainnet_destination convert_bits check_decode addr d h t =
    elim (Option-cases (check_decode addr)) [
      | inr ((payload, version), e) ↦ absurd (unfold legacy_destination in ground arith)
      | inl none' ↦ elim (Result-cases (decode_generic addr)) [
        | inr (bad, e) ↦ absurd (ground arith)
        | inl (((hrp, payload), constant), e) ↦
            let (hash, eh, ed) =
              destination_agrees convert_bits payload constant d mainnet (ground arith) t in
            (hash, ground (arith, bytes_eq_iff hrp (hrp_of mainnet)), ed)
      ]
    ]
