-- ===== src/Node/Call.antt =====
-- client.go: `call`, one request and the reading of its reply. The HTTP transport and the decoders of
-- `encoding/json` are parameters.
use symbiont_wallet.Base.{Bool, Option, none, some, List, ◌==◌, Result, ok, err, if◌then◌else◌}
use symbiont_wallet.Base.{ℕ}
use symbiont_wallet.Base.Bytes.{Bytes, codes}
use symbiont_wallet.Base.Int64.{ℤ}

-- A parameter of a method.
pub data Param : Type 0 where
  text : Bytes → Param
  flag : Bool → Param
  texts : List Bytes → Param

-- `rpcRequest`; the version and the ID are always "1.1" and 1.
pub record Request : Type 0 where
  pub jsonrpc : Bytes
  pub id : ℕ
  pub method : Bytes
  pub params : List Param

-- `rpcError`.
pub record RpcError : Type 0 where
  pub code : ℤ
  pub message : Bytes

-- `rpcResponse`, with the result undecoded.
pub record RpcResponse : Type 0 where
  pub result : Bytes
  pub error : Option RpcError

-- What `http.Client.Do` gives: an error, or a status and a body. An error of `json.Marshal` or of
-- `http.NewRequestWithContext` is the first one here.
pub data Reply : Type 0 where
  not_sent not_answered : Reply
  answer : (status : ℕ) → (body : Bytes) → Reply

pub data Error : Type 0 where
  request_failed transport_failed authentication_failed bad_response bad_result : Error
  rpc_error : RpcError → Error
  tx_index_required empty_txid empty_response : Error

-- The node behind the connection, and `json.Decode` of a response.
pub record Connection : Type 0 where
  pub post : Request → Reply
  pub decode_response : Bytes → Option RpcResponse

-- `http.StatusUnauthorized`.
abbrev pub status_unauthorized : ℕ
status_unauthorized = 401

module _ {A : Type 0} (decode_result : Bytes → Option A) where
  -- A response without an error carries the result.
  unfoldable pub read_response : RpcResponse → Result Error A
  read_response response = elim (response.error) [
    | some e ↦ err (rpc_error e)
    | none ↦ elim (decode_result (response.result)) [ none ↦ err bad_result | some a ↦ ok a ]
  ]

  unfoldable pub read_reply : (Bytes → Option RpcResponse) → Reply → Result Error A
  read_reply decode_response not_sent = err request_failed
  read_reply decode_response not_answered = err transport_failed
  read_reply decode_response (answer status body) =
      if status == status_unauthorized
      then err authentication_failed
      else elim (decode_response body) [
        | none ↦ err bad_response
        | some response ↦ read_response response
      ]

  -- `call`.
  unfoldable pub call : Connection → Bytes → List Param → Result Error A
  unfolding read_reply
  call node method params =
      read_reply (node.decode_response)
        (node.post (record { jsonrpc = codes "1.1"; id = 1; method = method; params = params }))
