-- ===== src/Node/Replies.antt =====
-- client.go: what the node answered when a method returned.
use symbiont_wallet.Base.{
  ℕ, ◌≡◌, refl, sym, subst, Bool, true, false, Option, none, some, List, [], ◌∷◌, ◌==◌, ok, err,
  inl, inr, Option-cases, Result-cases, arith,
}
use symbiont_wallet.Base.Bytes.{Bytes, codes}
use symbiont_wallet.Base.Int64.{ℤ, pos, eq_ℤ_eq}
use symbiont_wallet.Node.Call.{
  Param, text, flag, Request, RpcError, RpcResponse, Reply, not_sent, not_answered, answer, Error,
  request_failed, transport_failed, authentication_failed, bad_response, bad_result, rpc_error,
  tx_index_required, empty_txid, empty_response, Connection, status_unauthorized, read_response,
  read_reply, call,
}
use symbiont_wallet.Node.Methods.{
  to_lower, contains, RawTransactionInfo, code_not_found, lookup_error, Decoders,
  transaction_confirmations,
}

abbrev pub request_of : Bytes → List Param → Request
request_of method params = record {
  jsonrpc = codes "1.1";
  id = 1;
  method = method;
  params = params;
}

-- The node answered the request, to the user that it knows, with this response.
abbrev pub Answered : Connection → Request → RpcResponse → Type 0
Answered node request response =
    (status : ℕ) × (body : Bytes) × (node.post request ≡ answer status body)
    × ((status == status_unauthorized) ≡ false)
    × (node.decode_response body ≡ some response)

module _ {A : Type 0} (decode_result : Bytes → Option A) (node : Connection) (method : Bytes)
    (params : List Param) where
  reply_ok :
      (reply : Reply) (a : A)
      → node.post (request_of method params) ≡ reply
      → read_reply decode_result (node.decode_response) reply ≡ ok a
      → (response : RpcResponse) × Answered node (request_of method params) response
        × (response.error ≡ none)
        × (decode_result (response.result) ≡ some a)
  unfolding read_reply read_response
  reply_ok not_sent a e h = cc
  reply_ok not_answered a e h = cc
  reply_ok (answer status body) a e h = elim (Option-cases (node.decode_response body)) [
    | inl n ↦ absurd (ground arith)
    | inr (response, d) ↦ (response, (status, body, e, ground arith, d), ground arith, ground arith)
  ]

  reply_rpc_error :
      (reply : Reply) (x : RpcError)
      → node.post (request_of method params) ≡ reply
      → read_reply decode_result (node.decode_response) reply ≡ err (rpc_error x)
      → (response : RpcResponse) × Answered node (request_of method params) response
        × (response.error ≡ some x)
  unfolding read_reply read_response
  reply_rpc_error not_sent x e h = cc
  reply_rpc_error not_answered x e h = cc
  reply_rpc_error (answer status body) x e h = elim (Option-cases (node.decode_response body)) [
    | inl n ↦ absurd (ground arith)
    | inr (response, d) ↦ (response, (status, body, e, ground arith, d), ground arith)
  ]

  pub call_ok :
      (a : A)
      → call decode_result node method params ≡ ok a
      → (response : RpcResponse) × Answered node (request_of method params) response
        × (response.error ≡ none)
        × (decode_result (response.result) ≡ some a)
  unfolding call
  call_ok a h = reply_ok (node.post (request_of method params)) a refl h

  pub call_rpc_error :
      (x : RpcError)
      → call decode_result node method params ≡ err (rpc_error x)
      → (response : RpcResponse) × Answered node (request_of method params) response
        × (response.error ≡ some x)
  unfolding call
  call_rpc_error x h = reply_rpc_error (node.post (request_of method params)) x refl h

abbrev pub raw_transaction_request : Bytes → Request
raw_transaction_request txid = request_of (codes "getrawtransaction") (text txid ∷ flag true ∷ [])

module _ {Float : Type 0} (decoders : Decoders Float) (node : Connection) where
  -- What a response says of a transaction: its confirmations, or that the node does not know it.
  abbrev pub Says : RpcResponse → ℤ → Bool → Type 0
  Says response confirmations true =
      (info : RawTransactionInfo) × (response.error ≡ none)
      × (decoders.decode_info (response.result) ≡ some info)
      × (info.confirmations ≡ confirmations)
  Says response confirmations false =
      (x : RpcError) × (response.error ≡ some x)
      × (x.code ≡ code_not_found)
      × (contains (to_lower (x.message)) (codes "use -txindex") ≡ false)
      × (confirmations ≡ pos 0)

  lookup_error_ok :
      (e : Error) (confirmations : ℤ) (found : Bool)
      → lookup_error e ≡ ok (confirmations, found)
      → (x : RpcError) × (e ≡ rpc_error x)
        × (x.code ≡ code_not_found)
        × (contains (to_lower (x.message)) (codes "use -txindex") ≡ false)
        × (confirmations ≡ pos 0)
        × (found ≡ false)
  unfolding lookup_error
  lookup_error_ok (rpc_error x) c f h = (
    x,
    refl,
    ground (arith, eq_ℤ_eq (x.code) code_not_found),
    ground arith,
    ground arith,
    ground arith,
  )
  lookup_error_ok request_failed c f h = cc
  lookup_error_ok transport_failed c f h = cc
  lookup_error_ok authentication_failed c f h = cc
  lookup_error_ok bad_response c f h = cc
  lookup_error_ok bad_result c f h = cc
  lookup_error_ok tx_index_required c f h = cc
  lookup_error_ok empty_txid c f h = cc
  lookup_error_ok empty_response c f h = cc

  -- When `TransactionConfirmations` returns without an error, the node has answered the request, and
  -- either with the transaction, and the confirmations are those it gives, or with the error -5 and
  -- no hint at the missing index, and the transaction is reported as unknown. No failure of the
  -- transport, of the login or of a decoder is taken for an unknown transaction.
  pub transaction_confirmations_ok :
      (txid : Bytes) (confirmations : ℤ) (found : Bool)
      → transaction_confirmations decoders node txid ≡ ok (confirmations, found)
      → (response : RpcResponse) × Answered node (raw_transaction_request txid) response
        × Says response confirmations found
  unfolding transaction_confirmations
  transaction_confirmations_ok txid c f h =
      let decode = decoders.decode_info in
      let params = text txid ∷ flag true ∷ [] in
      elim (Result-cases (call decode node (codes "getrawtransaction") params)) [
        | inl (info, e) ↦
            let (response, answered, clean, decoded) =
              call_ok decode node (codes "getrawtransaction") params info e in
            let is : true ≡ f = ground (arith, e) in
            let counts : info.confirmations ≡ c = ground (arith, e) in
            (response, answered, subst (Says response c) is (info, clean, decoded, counts))
        | inr (x, e) ↦
            let (y, ey, code, hint, nothing, unknown) = lookup_error_ok x c f (ground (arith, e)) in
            let (response, answered, failed) =
              call_rpc_error decode node (codes "getrawtransaction") params y
                (ground (arith, e, ey)) in
            (
              response,
              answered,
              subst (Says response c) (sym unknown) (y, failed, code, hint, nothing),
            )
      ]
