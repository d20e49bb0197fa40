-- ===== src/Keystore/Operations.antt =====
-- The operations of `KeyIndex` that write, as one type, and a run of them: each takes the database
-- to the one it leaves, whether it returned an error or not.
use symbiont_wallet.Base.{ℕ, ◌+◌, Bool, Option, List, [], ◌∷◌}
use symbiont_wallet.Base.Bytes.{Bytes}
use symbiont_wallet.Base.Int64.{ℤ}
use symbiont_wallet.Keystore.Types.{RecoveryOutpoint, TransactionRecord, PendingBroadcast}
use symbiont_wallet.Keystore.Bolt.{Bolt}
use symbiont_wallet.Keystore.Store.{Db}
use symbiont_wallet.Keystore.Lifecycle.{mark_funded, mark_spend_pending, mark_spent, retire}
use symbiont_wallet.Keystore.Recovery.{observe_recoverable_outpoints, mark_recovery_pending}
use symbiont_wallet.Keystore.History.{put_transaction, mark_funded_and_record_incoming}
use symbiont_wallet.Keystore.Pending.{delete_pending_broadcast}
use symbiont_wallet.Keystore.Generate.{Derived, generate_address, pre_generate}

pub data Operation : Type 0 where
  generate_op : Operation
  pre_generate_op : ℕ → Operation
  mark_funded_op : Bytes → Operation
  fund_with_history_op : Bytes → ℤ → List TransactionRecord → Operation
  mark_spend_pending_op : Bytes → Bytes → Bytes → List PendingBroadcast → Operation
  observe_op : Bytes → List RecoveryOutpoint → Bool → Operation
  mark_recovery_pending_op :
      Bytes → Bytes → Bytes → List RecoveryOutpoint → List PendingBroadcast → Operation
  mark_spent_op : Bytes → Operation
  retire_op : Bytes → Operation
  put_transaction_op : TransactionRecord → Operation
  delete_pending_op : Bytes → Operation

module _ (bolt : Bolt) (derive : Bytes → ℕ → Option Derived) (seed : Option Bytes) where
  -- The database that the operation leaves.
  unfoldable pub apply : Operation → Db bolt → Db bolt
  apply generate_op db = (generate_address bolt derive seed db).1
  apply (pre_generate_op n) db = (pre_generate bolt derive n seed db).1
  apply (mark_funded_op addr) db = (mark_funded bolt addr db).1
  apply (fund_with_history_op addr balance incoming) db =
      (mark_funded_and_record_incoming bolt addr balance incoming db).1
  apply (mark_spend_pending_op from change txid pending) db =
      (mark_spend_pending bolt from change txid pending db).1
  apply (observe_op addr current mature) db =
      (observe_recoverable_outpoints bolt addr current mature db).1
  apply (mark_recovery_pending_op from change txid outpoints pending) db =
      (mark_recovery_pending bolt from change txid outpoints pending db).1
  apply (mark_spent_op addr) db = (mark_spent bolt addr db).1
  apply (retire_op addr) db = (retire bolt addr db).1
  apply (put_transaction_op rec) db = (put_transaction bolt rec db).1
  apply (delete_pending_op txid) db = (delete_pending_broadcast bolt txid db).1

  unfoldable pub run : List Operation → Db bolt → Db bolt
  unfolding apply
  run [] db = db
  run (op ∷ ops) db = run ops (apply op db)

-- How many addresses an operation may add.
abbrev pub births : Operation → ℕ
births generate_op = 1
births (pre_generate_op n) = n
births _ = 0

abbrev pub total_births : List Operation → ℕ
total_births [] = 0
total_births (op ∷ ops) = births op + total_births ops
