-- ===== src/Node/Tests.antt =====
-- A node that knows one transaction and answers for any other with the error -5.
use symbiont_wallet.Base.{
  ℕ, zero, suc, ◌≡◌, refl, true, false, Option, none, some, List, [], ◌∷◌, ok, if◌then◌else◌,
}
use symbiont_wallet.Base.Bytes.{Bytes, codes, bytes_eq}
use symbiont_wallet.Base.Int64.{ℤ, pos, negsuc}
use symbiont_wallet.Node.Call.{
  Param, text, RpcResponse, Reply, answer, Connection, read_response, read_reply, call,
}
use symbiont_wallet.Node.Methods.{
  to_lower, has_prefix, contains, lookup_error, Decoders, transaction_confirmations,
}
use symbiont_wallet.Node.Replies.{
  Answered, raw_transaction_request, Says, transaction_confirmations_ok,
}

-- The reply is 1 for the known transaction and 0 for others.
abbrev answer_for : List Param → Reply
answer_for (text txid ∷ _) = answer 200 (if bytes_eq txid (codes "t1") then 1 ∷ [] else 0 ∷ [])
answer_for _ = answer 500 []

abbrev read_body : Bytes → Option RpcResponse
read_body (zero ∷ []) = some (record {
  result = [];
  error = some (record { code = negsuc 4; message = codes "No such mempool transaction" });
})
read_body (suc n ∷ []) = some (record { result = 12 ∷ []; error = none })
read_body _ = none

abbrev toy_node : Connection
toy_node = record { post = λ r. answer_for (r.params); decode_response = read_body }

abbrev one_number : Bytes → Option ℤ
one_number (n ∷ []) = some (pos n)
one_number _ = none

abbrev toy_decoders : Decoders ℕ
toy_decoders = record {
  decode_scan = λ b. none;
  decode_int = one_number;
  decode_text = λ b. some b;
  decode_info = λ b. elim (one_number b) [
    | none ↦ none
    | some z ↦ some (record { txid = codes "t1"; confirmations = z })
  ];
  decode_accepts = λ b. none;
}

known : transaction_confirmations toy_decoders toy_node (codes "t1") ≡ ok (pos 12, true)
unfolding transaction_confirmations call read_reply read_response bytes_eq
known = refl

unknown : transaction_confirmations toy_decoders toy_node (codes "t2") ≡ ok (pos 0, false)
unfolding transaction_confirmations call read_reply read_response bytes_eq lookup_error contains
    to_lower has_prefix
unknown = refl

transaction_confirmations_ok_example :
    (response : RpcResponse) × Answered toy_node (raw_transaction_request (codes "t2")) response
    × Says toy_decoders toy_node response (pos 0) false
transaction_confirmations_ok_example =
    transaction_confirmations_ok toy_decoders toy_node (codes "t2") (pos 0) false unknown
