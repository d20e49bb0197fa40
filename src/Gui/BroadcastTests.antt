-- ===== src/Gui/BroadcastTests.antt =====
-- A send that is signed, tested and broadcast, and a pending spend that a node has confirmed.
use symbiont_wallet.Base.{
  ℕ, ◌≤◌, ◌≡◌, ◌⊎◌, refl, true, false, Option, none, some, List, [], ◌∷◌, All, ok, arith,
}
use symbiont_wallet.Base.Bytes.{Bytes, bytes_eq, codes}
use symbiont_wallet.Base.Int64.{ℤ, pos}
use symbiont_wallet.Address.Regroup.{regroup}
use symbiont_wallet.Keystore.Types.{PendingBroadcast}
use symbiont_wallet.Keystore.Bolt.{lookup}
use symbiont_wallet.Keystore.Store.{Db}
use symbiont_wallet.Keystore.Generate.{Derived, next_index}
use symbiont_wallet.Keystore.Pending.{kind_spend}
use symbiont_wallet.Keystore.Operations.{
  Operation, generate_op, mark_funded_op, mark_spend_pending_op, run,
}
use symbiont_wallet.Keystore.Indexed.{IsIndexed}
use symbiont_wallet.Keystore.Run.{run-IsIndexed}
use symbiont_wallet.Keystore.SortedList.{sorted_list_bolt}
use symbiont_wallet.Base.Bytes.{bytes_lt}
use symbiont_wallet.Base.Int64.{ltb_ℤ}
use symbiont_wallet.Base.Words.{put_be, be_value}
use symbiont_wallet.Keystore.Bolt.{insert}
use symbiont_wallet.Keystore.Transaction.{◌>>=◌, pure, fail_when, update}
use symbiont_wallet.Keystore.Store.{index_key, find_address}
use symbiont_wallet.Keystore.Generate.{generate, generate_address}
use symbiont_wallet.Keystore.Operations.{apply}
use symbiont_wallet.Keystore.Lifecycle.{mark_funded, mark_spend_pending, mark_spent, transition}
use symbiont_wallet.Keystore.Queries.{get_record}
use symbiont_wallet.Wallet.Observe.{on_confirmation, observe_spend_confirmation}
use symbiont_wallet.Wallet.Confirming.{Confirms, observe_spend_confirmation_ok}
use symbiont_wallet.Node.Call.{answer, Connection}
use symbiont_wallet.Node.Methods.{MempoolAcceptResult, Decoders}
use symbiont_wallet.Gui.Gate.{
  SignedContext, Event, previewed, signed, tested, pressed, answered, allows, reset,
  record_mempool_result, tested_gate, preview_pressed, sign_confirmed, test_pressed,
  broadcast_pressed, send_confirmed, dialog_answered, handle, after,
}
use symbiont_wallet.Gui.Tracked.{IsSound, IsSendable}
use symbiont_wallet.Gui.Broadcasts.{sent-IsSendable, button_follows_gate}
use symbiont_wallet.Gui.Pending.{inspect_entry}
use symbiont_wallet.Base.Maps.{Map}
use symbiont_wallet.Gui.Refresh.{refresh}
use symbiont_wallet.Gui.Observing.{IsRefreshed}
use symbiont_wallet.Gui.Refreshed.{refresh-IsRefreshed}
use symbiont_wallet.Gui.Reconciled.{Clears, inspect_entry_ok}

abbrev context : SignedContext
context = record {
  raw_hex = codes "02ab";
  source = codes "s";
  destination = codes "d";
  destination_type = codes "p2pkh";
  amount_sats = pos 5000;
  fee_sats = pos 100;
}

abbrev permission : MempoolAcceptResult
permission = record { txid = codes "t1"; allowed = true; vsize = pos 100; reject_reason = [] }

-- The latest event comes first.
abbrev whole_send : List Event
whole_send =
    answered true (ok (codes "t1"))
    ∷ pressed true
    ∷ tested (some (ok permission))
    ∷ signed context
    ∷ previewed
    ∷ []

one_sent : (after whole_send).1 ≡ context ∷ []
unfolding after handle preview_pressed sign_confirmed test_pressed tested_gate record_mempool_result
    broadcast_pressed dialog_answered send_confirmed allows reset bytes_eq
one_sent = refl

sent-IsSendable_example : All (IsSendable whole_send) ((after whole_send).1)
sent-IsSendable_example = sent-IsSendable whole_send

button_follows_gate_example : IsSound whole_send ((after whole_send).0.gate)
button_follows_gate_example = button_follows_gate whole_send

abbrev derive_toy : Bytes → ℕ → Option Derived
derive_toy seed idx =
    some (record { public_key = idx ∷ []; enc_seed = 7 ∷ idx ∷ []; address = b'q' ∷ idx ∷ [] })

abbrev seed_toy : Option Bytes
seed_toy = some (1 ∷ 2 ∷ 3 ∷ [])

abbrev empty_db : Db sorted_list_bolt
empty_db = record {
  addresses = ([], tt);
  meta = ([], tt);
  transactions = ([], tt);
  pending_broadcasts = ([], tt);
}

empty_db-IsIndexed : IsIndexed sorted_list_bolt empty_db 0
unfolding next_index lookup
empty_db-IsIndexed = record { counter = refl; placed = λ k r e. cc }

abbrev txid_of_ones : Bytes
txid_of_ones = codes "1111111111111111111111111111111111111111111111111111111111111111"

abbrev entry : PendingBroadcast
entry = record {
  txid = txid_of_ones;
  raw_hex = codes "02ab";
  kind = kind_spend;
  source_address = b'q' ∷ 0 ∷ [];
  destination = codes "d";
  destination_type = codes "p2pkh";
  amount_sats = pos 5000;
  fee_sats = pos 100;
  signed_at = 1;
}

-- The first address is funded and signs for the transaction, which is then pending.
abbrev signing : List Operation
signing =
    generate_op
    ∷ mark_funded_op (b'q' ∷ 0 ∷ [])
    ∷ mark_spend_pending_op (b'q' ∷ 0 ∷ []) [] txid_of_ones (entry ∷ [])
    ∷ []

abbrev signed_db : Db sorted_list_bolt
signed_db = run sorted_list_bolt derive_toy seed_toy signing empty_db

signed_db-IsIndexed : (m : ℕ) × (0 ≤ m) × (m ≤ 1) × IsIndexed sorted_list_bolt signed_db m
signed_db-IsIndexed =
    run-IsIndexed sorted_list_bolt derive_toy seed_toy signing empty_db 0 empty_db-IsIndexed
      (omega arith)

abbrev confirmed_db : Db sorted_list_bolt
confirmed_db =
    (observe_spend_confirmation sorted_list_bolt derive_toy seed_toy (b'q' ∷ 0 ∷ []) txid_of_ones
      (pos 3) signed_db).1

observed :
    observe_spend_confirmation sorted_list_bolt derive_toy seed_toy
      (b'q' ∷ 0 ∷ [])
      txid_of_ones
      (pos 3)
      signed_db
    ≡ (ok true, confirmed_db)
unfolding observe_spend_confirmation run apply generate_address generate update lookup insert
    index_key put_be be_value ◌>>=◌ pure bytes_eq bytes_lt next_index find_address get_record
    on_confirmation mark_spent transition mark_funded mark_spend_pending fail_when
observed = refl

observe_spend_confirmation_ok_example :
    (ltb_ℤ (pos 3) (pos 1) ≡ false)
    × Confirms sorted_list_bolt (b'q' ∷ 0 ∷ []) txid_of_ones signed_db confirmed_db
observe_spend_confirmation_ok_example =
    observe_spend_confirmation_ok sorted_list_bolt derive_toy seed_toy (b'q' ∷ 0 ∷ []) txid_of_ones
      (pos 3) signed_db confirmed_db signed_db-IsIndexed.0 signed_db-IsIndexed.3
      (omega (arith, signed_db-IsIndexed.2)) observed

-- A node that answers every call with 3 confirmations.
abbrev toy_node : Connection
toy_node = record {
  post = λ r. answer 200 [];
  decode_response = λ b. some (record { result = 3 ∷ []; error = none });
}

abbrev one_number : Bytes → Option ℤ
one_number (n ∷ []) = some (pos n)
one_number _ = none

abbrev toy_decoders : Decoders Bytes
toy_decoders = record {
  decode_scan = λ b. none;
  decode_int = one_number;
  decode_text = λ b. some b;
  decode_info = λ b. elim (one_number b) [
    | none ↦ none
    | some z ↦ some (record { txid = txid_of_ones; confirmations = z })
  ];
  decode_accepts = λ b. none;
}

abbrev same_text : Bytes → Bytes
same_text text = text

spend_kind : bytes_eq (entry.kind) kind_spend ≡ true
unfolding bytes_eq
spend_kind = refl

inspect_entry_ok_example :
    let r =
      inspect_entry sorted_list_bolt derive_toy seed_toy same_text toy_decoders toy_node regroup
        entry signed_db in
    (r.1 ≡ signed_db) ⊎ Clears sorted_list_bolt toy_decoders toy_node entry signed_db r
inspect_entry_ok_example =
    inspect_entry_ok sorted_list_bolt derive_toy seed_toy same_text toy_decoders toy_node regroup
      entry signed_db signed_db-IsIndexed.0 signed_db-IsIndexed.3
      (omega (arith, signed_db-IsIndexed.2)) spend_kind

abbrev same_order : Map ℤ → Map ℤ
same_order m = m

refresh-IsRefreshed_example :
    IsRefreshed sorted_list_bolt derive_toy seed_toy signed_db
      (refresh sorted_list_bolt derive_toy seed_toy same_text regroup toy_decoders toy_node
        same_order 1 signed_db).1
refresh-IsRefreshed_example =
    refresh-IsRefreshed sorted_list_bolt derive_toy seed_toy same_text regroup toy_decoders toy_node
      same_order 1 signed_db
