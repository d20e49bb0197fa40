-- ===== src/Wallet/Observe.antt =====
-- wallet.go and history.go: what the node's observations do to the addresses.
use symbiont_wallet.Base.{
  ℕ, Bool, true, false, not, ◌&&◌, ◌||◌, Option, none, some, List, [], map, Result, ok, err,
  if◌then◌else◌,
}
use symbiont_wallet.Base.Bytes.{Bytes, bytes_eq}
use symbiont_wallet.Base.Int64.{ℤ, pos, leb_ℤ, ltb_ℤ}
use symbiont_wallet.Keystore.Types.{
  AddressState, fresh, funded, spend_pending, spent, retired, state_eq, AddressRecord,
  RecoveryOutpoint, TransactionRecord, transaction_incoming,
}
use symbiont_wallet.Keystore.Types as K
use symbiont_wallet.Keystore.Bolt.{Bolt}
use symbiont_wallet.Keystore.Store.{Db}
use symbiont_wallet.Keystore.Pending.{is_empty}
use symbiont_wallet.Keystore.Lifecycle.{mark_funded, mark_spent, retire}
use symbiont_wallet.Keystore.Recovery.{observe_recoverable_outpoints}
use symbiont_wallet.Keystore.History.{mark_funded_and_record_incoming}
use symbiont_wallet.Keystore.Generate.{Derived, pre_generate}
use symbiont_wallet.Keystore.Queries.{get_record}
use symbiont_wallet.Wallet.Types.{
  Error, keystore_error, not_pending, spend_txid_mismatch, below_minimum,
}

-- `PreGenPoolSize`, `FundingMinConfirmations` and `KeyDestructionMinConfirmations`.
abbrev pub pool_size : ℕ
pool_size = 20

abbrev pub funding_min_confirmations : ℤ
funding_min_confirmations = pos 20

abbrev pub key_destruction_min_confirmations : ℤ
key_destruction_min_confirmations = pos 101

-- `SetKeyDestructionMinConfirmations`: the new threshold, `none` for the error.
unfoldable pub set_key_destruction_min_confirmations : ℤ → Option ℤ
set_key_destruction_min_confirmations n =
    if ltb_ℤ n key_destruction_min_confirmations then none else some n

-- `IncomingDeposit`.
pub record IncomingDeposit : Type 0 where
  pub txid : Bytes
  pub amount_sats : ℤ

abbrev pub incoming_record : Bytes → ℕ → IncomingDeposit → TransactionRecord
incoming_record addr now d = record {
  direction = transaction_incoming;
  txid = d.txid;
  source_address = [];
  destination = addr;
  destination_type = [];
  amount_sats = d.amount_sats;
  fee_sats = pos 0;
  recorded_at = now;
}

module _ (bolt : Bolt) (derive : Bytes → ℕ → Option Derived) (seed : Option Bytes) where
  -- `fillPool`, whose error is only printed by the callers below.
  abbrev pub fill_pool : Db bolt → Db bolt
  fill_pool db = (pre_generate bolt derive pool_size seed db).1

  abbrev pub refilled :
      {A : Type 0} → A → Result K.Error (Unit {0}) × Db bolt → Result Error A × Db bolt
  refilled a (ok u, db) = (ok a, fill_pool db)
  refilled a (err e, db) = (err (keystore_error e), db)

  -- An error of the keystore, wrapped.
  abbrev pub wrapped : {A : Type 0} → Result K.Error A × Db bolt → Result Error A × Db bolt
  wrapped (ok a, db) = (ok a, db)
  wrapped (err e, db) = (err (keystore_error e), db)

  -- `ObserveFunding`.
  unfoldable pub observe_funding : Bytes → ℤ → ℤ → Db bolt → Result Error Bool × Db bolt
  observe_funding addr balance confirmations db =
      if leb_ℤ balance (pos 0) || ltb_ℤ confirmations funding_min_confirmations
      then (ok false, db)
      else refilled true (mark_funded bolt addr db)

  abbrev pub forget :
      {A : Type 0} → Result K.Error A × Db bolt → Result K.Error (Unit {0}) × Db bolt
  forget (ok a, db) = (ok tt, db)
  forget (err e, db) = (err e, db)

  -- `ObserveFundingWithHistory`.
  unfoldable pub observe_funding_with_history :
      Bytes → ℤ → ℤ → List IncomingDeposit → ℕ → Db bolt → Result Error Bool × Db bolt
  observe_funding_with_history addr balance confirmations deposits now db =
      if leb_ℤ balance (pos 0) || ltb_ℤ confirmations funding_min_confirmations
      then (ok false, db)
      else refilled true (
          forget (
            mark_funded_and_record_incoming bolt addr balance
              (map (incoming_record addr now) deposits) db))

  -- `ObserveRecoverableBalance`.
  unfoldable pub observe_recoverable_balance :
      Bytes → ℤ → ℤ → List RecoveryOutpoint → Db bolt → Result Error Bool × Db bolt
  observe_recoverable_balance addr balance confirmations outpoints db =
      let mature = ltb_ℤ (pos 0) balance && leb_ℤ funding_min_confirmations confirmations in
      wrapped (observe_recoverable_outpoints bolt addr outpoints mature db)

  -- `OnConfirmation`.
  unfoldable pub on_confirmation : Bytes → ℤ → Db bolt → Result Error (Unit {0}) × Db bolt
  on_confirmation addr confirmations db =
      if ltb_ℤ confirmations (pos 1) then (ok tt, db) else refilled tt (mark_spent bolt addr db)

  abbrev pub confirmed : Result Error (Unit {0}) × Db bolt → Result Error Bool × Db bolt
  confirmed (ok u, db) = (ok true, db)
  confirmed (err e, db) = (err e, db)

  -- `ObserveSpendConfirmation`.
  unfoldable pub observe_spend_confirmation :
      Bytes → Bytes → ℤ → Db bolt → Result Error Bool × Db bolt
  unfolding on_confirmation
  observe_spend_confirmation addr txid confirmations db = elim (get_record bolt addr db) [
    | err e ↦ (err (keystore_error e), db)
    | ok rec ↦
        if not (state_eq (rec.state) spend_pending)
        then (err not_pending, db)
        else if is_empty (rec.spend_txid) || not (bytes_eq (rec.spend_txid) txid)
        then (err spend_txid_mismatch, db)
        else if ltb_ℤ confirmations (pos 1)
        then (ok false, db)
        else confirmed (on_confirmation addr confirmations db)
  ]

  -- `PurgeSpentKey`, with the threshold that is set.
  unfoldable pub purge_spent_key : ℤ → Bytes → ℤ → Db bolt → Result Error (Unit {0}) × Db bolt
  purge_spent_key threshold addr confirmations db =
      if ltb_ℤ confirmations threshold
      then (err below_minimum, db)
      else wrapped (retire bolt addr db)
