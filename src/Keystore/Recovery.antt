-- ===== src/Keystore/Recovery.antt =====
-- keystore.go: `ObserveRecoverableOutpoints` and `MarkRecoveryPendingAndReserveChange`.
use symbiont_wallet.Base.{Bool, false, not, ◌&&◌, ◌||◌, List, [], Result, if◌then◌else◌}
use symbiont_wallet.Base.Bytes.{Bytes}
use symbiont_wallet.Keystore.Types.{
  spent, state_eq, AddressRecord, RecoveryOutpoint, PendingBroadcast, Error, address_not_spent,
  recovery_in_progress, recovery_not_available,
}
use symbiont_wallet.Keystore.Bolt.{Bolt}
use symbiont_wallet.Keystore.Transaction.{◌>>=◌, ◌>>◌, pure, fail_when, update}
use symbiont_wallet.Keystore.Store.{Db, find_record, put_record}
use symbiont_wallet.Keystore.Pending.{kind_recovery, put_pending_for_transition}
use symbiont_wallet.Keystore.Lifecycle.{has_outpoints, find_change, reserve_change}
use symbiont_wallet.Keystore.Outpoints.{
  recovery_outpoint_set, recovery_outpoint_subset, remaining_outpoints, any_present,
}

-- The record after an observation while a signed recovery is still unconfirmed.
abbrev pub still_pending : AddressRecord → AddressRecord
still_pending rec = record rec { has_recoverable_balance = false; recoverable_outpoints = [] }

-- The record after any other observation of the mature set `current`.
abbrev pub observed : List RecoveryOutpoint → Bool → AddressRecord → AddressRecord
observed current mature rec = record rec {
  has_recoverable_balance = mature && has_outpoints current;
  recoverable_outpoints = if mature && has_outpoints current then current else [];
  recovery_pending_outpoints = [];
  recovery_spend_txid =
      if has_outpoints rec.recovery_pending_outpoints then [] else rec.recovery_spend_txid;
}

-- The record after a recovery of `outpoints` is signed.
abbrev pub recovering : Bytes → List RecoveryOutpoint → AddressRecord → AddressRecord
recovering txid outpoints rec = record rec {
  has_recoverable_balance = has_outpoints (remaining_outpoints rec.recoverable_outpoints outpoints);
  recoverable_outpoints = remaining_outpoints rec.recoverable_outpoints outpoints;
  recovery_pending_outpoints = outpoints;
  recovery_spend_txid = txid;
}

module _ (bolt : Bolt) where
  -- `ObserveRecoverableOutpoints`: the result says whether a balance became available.
  unfoldable pub observe_recoverable_outpoints :
      Bytes → List RecoveryOutpoint → Bool → Db bolt → Result Error Bool × Db bolt
  unfolding find_record put_record
  observe_recoverable_outpoints addr current mature = update do
    (key, rec) ← find_record bolt addr
    fail_when (not (state_eq rec.state spent)) address_not_spent
    if any_present (recovery_outpoint_set current) rec.recovery_pending_outpoints
        then (do put_record bolt key (still_pending rec); pure false)
        else do
          put_record bolt key (observed current mature rec)
          pure (not rec.has_recoverable_balance && (mature && has_outpoints current))

  -- `MarkRecoveryPendingAndReserveChange`.
  unfoldable pub mark_recovery_pending :
      Bytes
      → Bytes
      → Bytes
      → List RecoveryOutpoint
      → List PendingBroadcast
      → Db bolt
      → Result Error (Unit {0}) × Db bolt
  unfolding find_record put_record find_change reserve_change put_pending_for_transition
  mark_recovery_pending from_addr change_addr txid outpoints pending = update do
    (from_key, from) ← find_record bolt from_addr
    fail_when (not (state_eq from.state spent)) address_not_spent
    fail_when (has_outpoints from.recovery_pending_outpoints) recovery_in_progress
    fail_when
        (not from.has_recoverable_balance
          || not (recovery_outpoint_subset from.recoverable_outpoints outpoints))
        recovery_not_available
    change ← find_change bolt change_addr
    put_pending_for_transition bolt txid from_addr kind_recovery pending
    put_record bolt from_key (recovering txid outpoints from)
    reserve_change bolt change
