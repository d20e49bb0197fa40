-- ===== src/Keystore/Evolution.antt =====
-- Each operation that adds no address takes every stored record along steps of its life.
use symbiont_wallet.Base.{
  ◌≡◌, ◌≢◌, refl, sym, ap, subst, inl, inr, Bool, true, false, Option, none, some, List, Result, ok,
  arith,
}
use symbiont_wallet.Base.Bytes.{Bytes, bytes_eq_iff}
use symbiont_wallet.Base.Int64.{ℤ}
use symbiont_wallet.Keystore.Types.{
  fresh, spent, AddressRecord, RecoveryOutpoint, TransactionRecord, PendingBroadcast, Error,
  spend_pending,
}
use symbiont_wallet.Keystore.Bolt.{Bolt, Entries, lookup, insert}
use symbiont_wallet.Keystore.Transaction.{Tx, update}
use symbiont_wallet.Keystore.Store.{Db}
use symbiont_wallet.Keystore.Lifecycle.{mark_funded, mark_spend_pending, mark_spent, retire}
use symbiont_wallet.Keystore.Recovery.{observe_recoverable_outpoints, mark_recovery_pending}
use symbiont_wallet.Keystore.History.{put_transaction, mark_funded_and_record_incoming}
use symbiont_wallet.Keystore.Pending.{delete_pending_broadcast}
use symbiont_wallet.Keystore.Rows.{lookup-insert}
use symbiont_wallet.Keystore.Inversion.{update_cases, rows}
use symbiont_wallet.Keystore.Steps.{
  Step, fund, reserve, sign, confirm, observe_pending, observe, recover, Evolves, Evolves-refl,
  Evolves-trans, Evolves-of_eq, Evolves-insert,
}
use symbiont_wallet.Keystore.Writes.{update_ok, Rewrites, mark_funded_ok, transition_ok, retire_ok}
use symbiont_wallet.Keystore.Writes.Signing.{
  IsChange, reserving, Signs, mark_spend_pending_ok, mark_recovery_pending_ok,
}
use symbiont_wallet.Keystore.Writes.Observing.{Observes, observe_recoverable_outpoints_ok}
use symbiont_wallet.Keystore.Writes.Funding.{
  mark_funded_and_record_incoming_ok, put_history_record_ok,
}

-- `Update` keeps what holds of the old database and of every database that a success leaves.
pub update_rule {ℓ} :
    {S A : Type 0} (P : S → Type ℓ) (m : Tx S A) (s : S)
    → P s
    → ((a : A) (s' : S) → update m s ≡ (ok a, s') → P s')
    → P (update m s).1
update_rule P m s h k = elim (update_cases m s) [
  | inl (e, fails, q) ↦ subst (λ t. P t) (sym (ap (λ (r : Result Error _ × _). r.1) q)) h
  | inr (a, s', succeeds, q) ↦
      subst (λ t. P t) (sym (ap (λ (r : Result Error _ × _). r.1) q)) (k a s' q)
]

reserving-Evolves :
    (addr key : Bytes) (from from' : AddressRecord) (change : Option (Bytes × AddressRecord))
    (m : Entries AddressRecord)
    → lookup key m ≡ some from
    → from.state ≢ fresh
    → Step from from'
    → IsChange addr m change
    → Evolves m (reserving change (insert key from' m))
reserving-Evolves addr key from from' none m at busy st c = Evolves-insert key from from' m at st
reserving-Evolves addr key from from' (some (ck, rec)) m at busy st (named, found, is_fresh, free) =
    Evolves-trans _ _ _ (Evolves-insert key from from' m at st) (
      Evolves-insert ck rec _ _ (ground (arith, lookup-insert ck key from' m, bytes_eq_iff ck key))
        (reserve is_fresh free))

module _ (bolt : Bolt) where
  -- Records age by steps, and the counter stays.
  abbrev pub DbEvolves : Db bolt → Db bolt → Type 0
  DbEvolves db db' = Evolves (rows bolt db) (rows bolt db') × (db'.meta ≡ db.meta)

  DbEvolves-refl : (db : Db bolt) → DbEvolves db db
  DbEvolves-refl db = (Evolves-refl _, refl)

  Rewrites-DbEvolves :
      {db db' : Db bolt} {key : Bytes} {rec rec' : AddressRecord}
      → Rewrites bolt db db' key rec rec'
      → Step rec rec'
      → DbEvolves db db'
  Rewrites-DbEvolves w st = (rw (w.written) (Evolves-insert _ _ _ _ w.found st), w.meta_kept)

  pub mark_funded-DbEvolves :
      (addr : Bytes) (db : Db bolt) → DbEvolves db (mark_funded bolt addr db).1
  unfolding mark_funded
  mark_funded-DbEvolves addr db = update_rule (DbEvolves db) _ db (DbEvolves-refl db) λ u db' h.
      let (key, rec, named, is_fresh, w) = mark_funded_ok bolt addr db db' h in
      Rewrites-DbEvolves w (fund is_fresh)

  pub fund_with_history-DbEvolves :
      (addr : Bytes) (balance : ℤ) (incoming : List TransactionRecord) (db : Db bolt)
      → DbEvolves db (mark_funded_and_record_incoming bolt addr balance incoming db).1
  unfolding mark_funded_and_record_incoming
  fund_with_history-DbEvolves addr balance incoming db =
      update_rule (DbEvolves db) _ db (DbEvolves-refl db) λ u db' h.
        let (key, rec, named, is_fresh, result, at, wrote, grows, accounted, meta, pend) =
          mark_funded_and_record_incoming_ok bolt addr balance incoming db db' h in
        (rw wrote (Evolves-insert key rec _ _ at (fund is_fresh)), meta)

  Signs-DbEvolves :
      {txid source kind change_addr : Bytes} {pending : List PendingBroadcast} {db db' : Db bolt}
      {from from' : AddressRecord}
      → Signs bolt txid source kind change_addr pending db db' from from'
      → from.state ≢ fresh
      → Step from from'
      → DbEvolves db db'
  Signs-DbEvolves {change_addr = change_addr} s busy st = (
    rw (s.written)
        (reserving-Evolves change_addr s.key _ _ s.change _ s.found busy st s.change_found),
    s.meta_kept,
  )

  pub mark_spend_pending-DbEvolves :
      (from change txid : Bytes) (pending : List PendingBroadcast) (db : Db bolt)
      → DbEvolves db (mark_spend_pending bolt from change txid pending db).1
  unfolding mark_spend_pending
  mark_spend_pending-DbEvolves from change txid pending db =
      update_rule (DbEvolves db) _ db (DbEvolves-refl db) λ u db' h.
        let (rec, is_funded, s) = mark_spend_pending_ok bolt from change txid pending db db' h in
        Signs-DbEvolves s (λ e. cc) (sign txid is_funded)

  pub mark_recovery_pending-DbEvolves :
      (from change txid : Bytes) (outpoints : List RecoveryOutpoint)
      (pending : List PendingBroadcast) (db : Db bolt)
      → DbEvolves db (mark_recovery_pending bolt from change txid outpoints pending db).1
  unfolding mark_recovery_pending
  mark_recovery_pending-DbEvolves from change txid outpoints pending db =
      update_rule (DbEvolves db) _ db (DbEvolves-refl db) λ u db' h.
        let (rec, is_spent, idle, balance, subset, s) =
          mark_recovery_pending_ok bolt from change txid outpoints pending db db' h in
        Signs-DbEvolves s (λ e. cc) (recover txid outpoints is_spent idle balance subset)

  Observes-Step :
      (present : Bool) (current : List RecoveryOutpoint) (mature : Bool) (rec rec' : AddressRecord)
      (became : Bool)
      → rec.state ≡ spent
      → Observes bolt present current mature rec rec' became
      → Step rec rec'
  Observes-Step true current mature rec rec' became s (e, _) = rw e (observe_pending s)
  Observes-Step false current mature rec rec' became s (e, _) = rw e (observe current mature s)

  pub observe-DbEvolves :
      (addr : Bytes) (current : List RecoveryOutpoint) (mature : Bool) (db : Db bolt)
      → DbEvolves db (observe_recoverable_outpoints bolt addr current mature db).1
  unfolding observe_recoverable_outpoints
  observe-DbEvolves addr current mature db =
      update_rule (DbEvolves db) _ db (DbEvolves-refl db) λ became db' h.
        let (key, rec, rec', named, is_spent, o, w) =
          observe_recoverable_outpoints_ok bolt addr current mature db db' h in
        Rewrites-DbEvolves w (Observes-Step _ current mature rec rec' became is_spent o)

  pub mark_spent-DbEvolves :
      (addr : Bytes) (db : Db bolt) → DbEvolves db (mark_spent bolt addr db).1
  unfolding mark_spent
  mark_spent-DbEvolves addr db = update_rule (DbEvolves db) _ db (DbEvolves-refl db) λ u db' h.
      let (key, rec, scan, named, is_pending, w) =
        transition_ok bolt addr spend_pending spent false db db' (λ e. cc) h in
      Rewrites-DbEvolves w (confirm is_pending)

  pub retire-DbEvolves : (addr : Bytes) (db : Db bolt) → DbEvolves db (retire bolt addr db).1
  unfolding retire
  retire-DbEvolves addr db = update_rule (DbEvolves db) _ db (DbEvolves-refl db) λ u db' h.
      let (key, rec, named, is_spent, balance, idle, w) = retire_ok bolt addr db db' h in
      Rewrites-DbEvolves w (Step.retire is_spent balance idle)

  pub put_transaction-DbEvolves :
      (rec : TransactionRecord) (db : Db bolt) → DbEvolves db (put_transaction bolt rec db).1
  unfolding put_transaction
  put_transaction-DbEvolves rec db = update_rule (DbEvolves db) _ db (DbEvolves-refl db) λ u db' h.
      let (grows, recorded, kept) = put_history_record_ok bolt rec db db' (update_ok _ db db' h) in
      (Evolves-of_eq _ _ (ap (λ (t : bolt.Bucket AddressRecord). bolt.entries t) kept.0), kept.1)

  pub delete_pending-DbEvolves :
      (txid : Bytes) (db : Db bolt) → DbEvolves db (delete_pending_broadcast bolt txid db).1
  unfolding delete_pending_broadcast
  delete_pending-DbEvolves txid db = DbEvolves-refl db
