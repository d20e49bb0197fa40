-- ===== src/TxBuilder/TxId.antt =====
-- txbuilder.go: `TxIDFromBIP144`, and `p2qpkTxID` of wallet.go, which hashes the same transaction
-- from its fields. SHA-256 is a parameter.
use symbiont_wallet.Base.{
  ℕ, zero, suc, ◌-◌, ◌≡◌, Bool, false, List, [], ◌++◌, none, some, length, get_elem?, take, drop,
  reverse, length-reverse_onto, reverse_onto-reverse_onto, reverse_onto-All, All, append-nil, arith,
  ltb, ◌==◌, not, ◌||◌, Result, ok, err, fail_if, ◌>>◌, ◌>>=◌, if◌then◌else◌,
}
use symbiont_wallet.Base.Bytes.{Bytes}
use symbiont_wallet.Base.Words.{IsByte}
use symbiont_wallet.Base.Hex.{hex_encode, hex_decode, hex_decode-hex_encode}
use symbiont_wallet.TxBuilder.Compact.{read_compact}
use symbiont_wallet.TxBuilder.Serialize.{write_body, write_le32}
use symbiont_wallet.TxBuilder.Types.{
  TxInput, TxOutput, Error, invalid_marker, truncated, missing_inputs, missing_outputs,
  trailing_bytes, invalid_hex, bad_txid_length,
}

-- The bytes between `offset` and `end` are the argument; `skip` moves `offset` over some of them.
unfoldable pub skip : ℕ → Bytes → Result Error Bytes
skip n raw = if ltb (length raw) n then err truncated else ok (drop n raw)

-- A loop whose every turn moves `offset`.
unfoldable pub skip_each : (Bytes → Result Error Bytes) → ℕ → Bytes → Result Error Bytes
skip_each step zero raw = ok raw
skip_each step (suc n) raw = step raw >>= λ rest. skip_each step n rest

-- A length and as many bytes.
unfoldable pub skip_var : Bytes → Result Error Bytes
skip_var raw = read_compact raw >>= λ (n, rest). skip n rest

unfoldable pub skip_input : Bytes → Result Error Bytes
skip_input raw = skip 36 raw >>= skip_var >>= skip 4

unfoldable pub skip_output : Bytes → Result Error Bytes
skip_output raw = skip 8 raw >>= skip_var

unfoldable pub skip_witness : Bytes → Result Error Bytes
skip_witness raw = read_compact raw >>= λ (items, rest). skip_each skip_var items rest

-- `n, err := readCompact(); if err != nil || n == 0 { return missing }`.
unfoldable pub read_count : Error → Bytes → Result Error (ℕ × Bytes)
read_count missing raw = elim (read_compact raw) [
  | err e ↦ err missing
  | ok (n, rest) ↦ if n == 0 then err missing else ok (n, rest)
]

abbrev pub has_byte : Bytes → ℕ → ℕ → Bool
has_byte raw i b = elim (get_elem? raw i) [ none ↦ false | some x ↦ x == b ]

-- `hex.EncodeToString` of the reversed double hash.
unfoldable pub display_hash : (Bytes → Bytes) → Bytes → Bytes
display_hash sha256 bytes = hex_encode (reverse (sha256 (sha256 bytes)))

-- What lies between the marker and the locktime: the count of inputs, and where the witnesses start.
unfoldable pub skip_body : Bytes → Result Error (ℕ × Bytes)
unfolding read_count skip_each skip_input skip_output
skip_body body = read_count missing_inputs body >>= λ (inputs, rest).
    skip_each skip_input inputs rest >>= λ rest.
    read_count missing_outputs rest >>= λ (outputs, rest).
    skip_each skip_output outputs rest >>= λ witness_part. ok (inputs, witness_part)

-- `TxIDFromBIP144`.
unfoldable pub tx_id_from_bip144 : (Bytes → Bytes) → Bytes → Result Error Bytes
unfolding skip_body skip_each skip_witness display_hash
tx_id_from_bip144 sha256 raw =
    let end = length raw - 4 in
    let body = drop 6 (take end raw) in
    fail_if (ltb (length raw) 12 || not (has_byte raw 4 0) || not (has_byte raw 5 1)) invalid_marker
    >> (skip_body body >>= λ (inputs, witness_part).
        skip_each skip_witness inputs witness_part >>= λ rest.
        fail_if (not (length rest == 0)) trailing_bytes
        >> ok (
            display_hash sha256
              (take 4 raw ++ (take (length body - length witness_part) body ++ drop end raw))))

-- `p2qpkTxID`, of a transaction's fields.
unfoldable pub p2qpk_tx_id : (Bytes → Bytes) → ℕ → List TxInput → List TxOutput → ℕ → Bytes
unfolding display_hash
p2qpk_tx_id sha256 n_version inputs outputs n_lock_time =
    display_hash sha256
      (write_le32 n_version ++ (write_body inputs outputs ++ write_le32 n_lock_time))

-- `TxIDLEFromHex`: the decoded bytes in reverse.
unfoldable pub tx_id_le_from_hex : Bytes → Result Error Bytes
tx_id_le_from_hex text = elim (hex_decode text) [
  | none ↦ err invalid_hex
  | some b ↦ fail_if (not (length b == 32)) bad_txid_length >> ok (reverse b)
]

-- When the hash has 32 bytes, the ID that is displayed for it is read back by `TxIDLEFromHex` as the
-- hash in wire order, the bytes by which an input names the transaction.
pub tx_id_le_from_hex-display_hash :
    (sha256 : Bytes → Bytes) (bytes : Bytes)
    → length (sha256 (sha256 bytes)) ≡ 32
    → All IsByte (sha256 (sha256 bytes))
    → tx_id_le_from_hex (display_hash sha256 bytes) ≡ ok (sha256 (sha256 bytes))
unfolding tx_id_le_from_hex display_hash
tx_id_le_from_hex-display_hash sha256 bytes h k = ground (
  arith,
  hex_decode-hex_encode (reverse (sha256 (sha256 bytes)))
      (reverse_onto-All IsByte [] (sha256 (sha256 bytes)) tt k),
  length-reverse_onto [] (sha256 (sha256 bytes)),
  reverse_onto-reverse_onto [] [] (sha256 (sha256 bytes)),
  append-nil (sha256 (sha256 bytes)),
)
