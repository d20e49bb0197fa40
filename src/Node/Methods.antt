-- ===== src/Node/Methods.antt =====
-- client.go: the methods of `Client`.
use symbiont_wallet.Base.{
  ◌+◌, Bool, true, false, ◌&&◌, ◌||◌, Option, List, [], ◌∷◌, length, leb, ◌==◌, Result, ok, err,
  ◌>>=◌, if◌then◌else◌,
}
use symbiont_wallet.Base.Bytes.{Bytes, codes}
use symbiont_wallet.Base.Int64.{ℤ, negsuc, eq_ℤ}
use symbiont_wallet.Scan.Types.{ScanResult}
use symbiont_wallet.Node.Call.{
  text, flag, texts, Error, rpc_error, tx_index_required, empty_txid, empty_response, Connection,
  call,
}

-- `strings.ToLower` on ASCII text.
unfoldable pub to_lower : Bytes → Bytes
to_lower [] = []
to_lower (c ∷ cs) = (if leb b'A' c && leb c b'Z' then c + 32 else c) ∷ to_lower cs

-- `strings.HasPrefix` and `strings.Contains`.
unfoldable pub has_prefix : Bytes → Bytes → Bool
has_prefix s [] = true
has_prefix [] (c ∷ cs) = false
has_prefix (d ∷ ds) (c ∷ cs) = d == c && has_prefix ds cs

unfoldable pub contains : Bytes → Bytes → Bool
unfolding has_prefix
contains [] sub = has_prefix [] sub
contains (c ∷ cs) sub = has_prefix (c ∷ cs) sub || contains cs sub

-- `RawTransactionInfo`.
pub record RawTransactionInfo : Type 0 where
  pub txid : Bytes
  pub confirmations : ℤ

-- `MempoolAcceptResult`, but for the fees, a float that nothing reads.
pub record MempoolAcceptResult : Type 0 where
  pub txid : Bytes
  pub allowed : Bool
  pub vsize : ℤ
  pub reject_reason : Bytes

-- The code of an unknown transaction, -5.
abbrev pub code_not_found : ℤ
code_not_found = negsuc 4

-- What `TransactionConfirmations` makes of an error.
unfoldable pub lookup_error : Error → Result Error (ℤ × Bool)
unfolding contains to_lower
lookup_error (rpc_error e) =
    if eq_ℤ (e.code) code_not_found
    then (if contains (to_lower (e.message)) (codes "use -txindex")
        then err tx_index_required
        else ok (ℤ.pos 0, false))
    else err (rpc_error e)
lookup_error e = err e

-- The decoders of the results.
pub record Decoders (Float : Type 0) : Type 0 where
  pub decode_scan : Bytes → Option (ScanResult Float)
  pub decode_int : Bytes → Option ℤ
  pub decode_text : Bytes → Option Bytes
  pub decode_info : Bytes → Option RawTransactionInfo
  pub decode_accepts : Bytes → Option (List MempoolAcceptResult)

module _ {Float : Type 0} (decoders : Decoders Float) (node : Connection) where
  open decoders use {decode_scan, decode_int, decode_text, decode_info, decode_accepts}

  -- `ScanTxOutSet`.
  unfoldable pub scan_tx_out_set : List Bytes → Result Error (ScanResult Float)
  scan_tx_out_set descriptors =
      call decode_scan node (codes "scantxoutset") (text (codes "start") ∷ texts descriptors ∷ [])

  -- `GetConnectionCount`.
  unfoldable pub get_connection_count : Result Error ℤ
  get_connection_count = call decode_int node (codes "getconnectioncount") []

  -- `GetBlockCount`, and `Ping`, which drops the height.
  unfoldable pub get_block_count : Result Error ℤ
  get_block_count = call decode_int node (codes "getblockcount") []

  unfoldable pub ping : Result Error (Unit {0})
  ping = call decode_int node (codes "getblockcount") [] >>= λ count. ok tt

  -- `TransactionConfirmations`: the confirmations, and whether the node knows the transaction.
  unfoldable pub transaction_confirmations : Bytes → Result Error (ℤ × Bool)
  unfolding lookup_error
  transaction_confirmations txid =
      elim (call decode_info node (codes "getrawtransaction") (text txid ∷ flag true ∷ [])) [
        | err e ↦ lookup_error e
        | ok info ↦ ok (info.confirmations, true)
      ]

  -- `SendRawTransaction`.
  unfoldable pub send_raw_transaction : Bytes → Result Error Bytes
  send_raw_transaction raw_hex =
      call decode_text node (codes "sendrawtransaction") (text raw_hex ∷ []) >>= λ txid.
      if length txid == 0 then err empty_txid else ok txid

  abbrev pub first_result : List MempoolAcceptResult → Result Error MempoolAcceptResult
  first_result [] = err empty_response
  first_result (r ∷ rs) = ok r

  -- `TestMempoolAccept`.
  unfoldable pub test_mempool_accept : Bytes → Result Error MempoolAcceptResult
  test_mempool_accept raw_hex =
      call decode_accepts node (codes "testmempoolaccept") (texts (raw_hex ∷ []) ∷ []) >>= λ rs.
      first_result rs
