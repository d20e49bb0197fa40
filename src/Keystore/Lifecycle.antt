-- ===== src/Keystore/Lifecycle.antt =====
-- keystore.go: `MarkFunded`, `MarkSpendPendingAndReserveChange`, `MarkSpent`, `Retire` and the
-- internal `transition`.
use symbiont_wallet.Base.{
  Bool, true, false, not, ◌||◌, Option, none, some, List, [], ◌∷◌, Result, if◌then◌else◌,
}
use symbiont_wallet.Base.Bytes.{Bytes}
use symbiont_wallet.Keystore.Types.{
  AddressState, fresh, funded, spend_pending, spent, retired, state_eq, AddressRecord,
  PendingBroadcast, Error, address_not_fresh, address_not_funded, address_not_pending,
  address_not_spent, recovery_in_progress,
}
use symbiont_wallet.Keystore.Bolt.{Bolt}
use symbiont_wallet.Keystore.Transaction.{Tx, ◌>>=◌, ◌>>◌, pure, fail, fail_when, update}
use symbiont_wallet.Keystore.Store.{Db, find_record, put_record}
use symbiont_wallet.Keystore.Pending.{kind_spend, put_pending_for_transition}

-- The `switch from` of `transition`; no case of it names RETIRED.
abbrev pub transition_error : AddressState → Option Error
transition_error fresh = some address_not_fresh
transition_error funded = some address_not_funded
transition_error spend_pending = some address_not_pending
transition_error spent = some address_not_spent
transition_error retired = none

abbrev pub fail_with : {S : Type 0} → Option Error → Tx S (Unit {0})
fail_with none = pure tt
fail_with (some e) = fail e

abbrev pub has_outpoints : {A : Type 0} → List A → Bool
has_outpoints [] = false
has_outpoints (x ∷ xs) = true

module _ (bolt : Bolt) where
  -- `MarkFunded`.
  unfoldable pub mark_funded : Bytes → Db bolt → Result Error (Unit {0}) × Db bolt
  unfolding find_record put_record
  mark_funded addr = update do
    (key, rec) ← find_record bolt addr
    fail_when (not (state_eq rec.state fresh)) address_not_fresh
    put_record bolt key (record rec { state = funded; reserved = false })

  -- The part of both signing transitions that checks the optional change address.
  unfoldable pub find_change : Bytes → Tx (Db bolt) (Option (Bytes × AddressRecord))
  unfolding find_record
  find_change [] = pure none
  find_change (c ∷ cs) = do
    (key, rec) ← find_record bolt (c ∷ cs)
    fail_when (not (state_eq rec.state fresh) || rec.reserved) address_not_fresh
    pure (some (key, rec))

  -- The part of both that reserves it.
  unfoldable pub reserve_change : Option (Bytes × AddressRecord) → Tx (Db bolt) (Unit {0})
  unfolding put_record
  reserve_change none = pure tt
  reserve_change (some (key, rec)) = put_record bolt key (record rec { reserved = true })

  -- `MarkSpendPendingAndReserveChange`; an empty change address is no change output.
  unfoldable pub mark_spend_pending :
      Bytes → Bytes → Bytes → List PendingBroadcast → Db bolt → Result Error (Unit {0}) × Db bolt
  unfolding find_record put_record find_change reserve_change put_pending_for_transition
  mark_spend_pending from_addr change_addr txid pending = update do
    (from_key, from) ← find_record bolt from_addr
    fail_when (not (state_eq from.state funded)) address_not_funded
    change ← find_change change_addr
    put_pending_for_transition bolt txid from_addr kind_spend pending
    put_record bolt from_key (record from { state = spend_pending; spend_txid = txid })
    reserve_change change

  -- `transition`.
  unfoldable pub transition :
      Bytes → AddressState → AddressState → Bool → Db bolt → Result Error (Unit {0}) × Db bolt
  unfolding find_record put_record
  transition addr from to zero_seed = update do
    (key, rec) ← find_record bolt addr
    if state_eq rec.state from then pure tt else fail_with (transition_error from)
    put_record bolt key
        (record rec { state = to; enc_seed_blob = if zero_seed then [] else rec.enc_seed_blob })

  -- `MarkSpent`.
  unfoldable pub mark_spent : Bytes → Db bolt → Result Error (Unit {0}) × Db bolt
  unfolding transition
  mark_spent addr = transition addr spend_pending spent false

  -- `Retire`.
  unfoldable pub retire : Bytes → Db bolt → Result Error (Unit {0}) × Db bolt
  unfolding find_record put_record
  retire addr = update do
    (key, rec) ← find_record bolt addr
    fail_when (not (state_eq rec.state spent)) address_not_spent
    fail_when (rec.has_recoverable_balance || has_outpoints rec.recovery_pending_outpoints)
        recovery_in_progress
    put_record bolt key (record rec { state = retired; enc_seed_blob = [] })
