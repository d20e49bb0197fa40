-- ===== src/Address/Codec.antt =====
-- bech32m.go: `encodeGeneric` and `decodeGeneric`, on ASCII text.
use symbiont_wallet.Base.{
  ℕ, suc, ◌+◌, ◌-◌, Bool, true, not, ◌&&◌, ◌||◌, Option, none, some, [], ◌∷◌, ◌++◌, map, length,
  get_elem?, take, ltb, leb, ◌==◌, Result, ok, err, fail_if, ◌>>◌, ◌>>=◌, if◌then◌else◌,
}
use symbiont_wallet.Base.Bytes.{Bytes, bytes_eq, codes}
use symbiont_wallet.Address.Checksum.{create_checksum, verify_checksum}

-- One constructor for each error of the package.
pub data Error : Type 0 where
  invalid_checksum invalid_character mixed_case invalid_length no_separator : Error
  empty_hrp value_out_of_range : Error
  invalid_pub_key_length invalid_address wrong_hrp taproot_detected convert_failed : Error

abbrev pub charset : Bytes
charset = codes "qpzry9x8gf2tvdw0s3jn54khce6mua7l"

-- `charsetRev`.
unfoldable pub index_from : ℕ → ℕ → Bytes → Option ℕ
index_from i c [] = none
index_from i c (d ∷ ds) = let rest = index_from (suc i) c ds in if c == d then some i else rest

unfoldable pub charset_rev : ℕ → Option ℕ
unfolding index_from
charset_rev c = index_from 0 c charset

-- `strings.ToLower` and `strings.ToUpper`.
abbrev pub lower : ℕ → ℕ
lower c = if leb 65 c && leb c 90 then c + 32 else c

abbrev pub upper : ℕ → ℕ
upper c = if leb 97 c && leb c 122 then c - 32 else c

-- The loops over `hrp`.
unfoldable pub is_printable : Bytes → Bool
is_printable [] = true
is_printable (c ∷ cs) = (leb 33 c && leb c 126) && is_printable cs

unfoldable pub to_chars : Bytes → Result Error Bytes
to_chars [] = ok []
to_chars (b ∷ bs) = elim (get_elem? charset b) [
  | none ↦ err value_out_of_range
  | some c ↦ to_chars bs >>= λ cs. ok (c ∷ cs)
]

unfoldable pub from_chars : Bytes → Result Error Bytes
unfolding charset_rev
from_chars [] = ok []
from_chars (c ∷ cs) = elim (charset_rev c) [
  | none ↦ err invalid_character
  | some v ↦ from_chars cs >>= λ vs. ok (v ∷ vs)
]

-- `encodeGeneric`.
unfoldable pub encode_generic : Bytes → Bytes → ℕ → Result Error Bytes
unfolding is_printable to_chars
encode_generic hrp data' constant =
    let low = map lower hrp in
    fail_if (length hrp == 0) empty_hrp
    >> fail_if (not (is_printable hrp)) invalid_character
    >> fail_if (not (bytes_eq low hrp) && not (bytes_eq (map upper hrp) hrp)) mixed_case
    >> (to_chars (data' ++ create_checksum low data' constant) >>= λ chars.
        ok (low ++ (b'1' ∷ chars)))

-- `strings.LastIndexByte(s, '1')`: what stands before the last separator and behind it.
unfoldable pub split_last : Bytes → Option (Bytes × Bytes)
split_last [] = none
split_last (c ∷ cs) = elim (split_last cs) [
  | some (before, behind) ↦ some (c ∷ before, behind)
  | none ↦ if c == b'1' then some ([], cs) else none
]

-- The part of `decodeGeneric` behind the separator.
unfoldable pub decode_parts : Bytes → Bytes → Result Error ((Bytes × Bytes) × ℕ)
unfolding is_printable from_chars
decode_parts hrp data_part =
    fail_if (length hrp == 0 || ltb (length data_part) 6) no_separator
    >> fail_if (not (is_printable hrp)) invalid_character
    >> (from_chars data_part >>= λ values.
        fail_if (verify_checksum hrp values == 0) invalid_checksum
        >> ok ((hrp, take (length values - 6) values), verify_checksum hrp values))

-- `decodeGeneric`: the human-readable part, the data and the constant.
unfoldable pub decode_generic : Bytes → Result Error ((Bytes × Bytes) × ℕ)
unfolding split_last decode_parts
decode_generic s =
    let low = map lower s in
    fail_if (ltb (length s) 8 || ltb 90 (length s)) invalid_length
    >> fail_if (not (bytes_eq s low) && not (bytes_eq s (map upper s))) mixed_case
    >> elim (split_last low) [
      | none ↦ err no_separator
      | some (hrp, data_part) ↦ decode_parts hrp data_part
    ]
