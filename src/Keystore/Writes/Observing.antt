-- ===== src/Keystore/Writes/Observing.antt =====
-- keystore.go: what `ObserveRecoverableOutpoints` writes.
use symbiont_wallet.Base.{◌≡◌, refl, ◌∙◌, Bool, true, false, not, ◌&&◌, List, ok, if◌then◌else◌}
use symbiont_wallet.Base.Bytes.{Bytes}
use symbiont_wallet.Keystore.Types.{spent, AddressRecord, RecoveryOutpoint}
use symbiont_wallet.Keystore.Bolt.{Bolt, insert}
use symbiont_wallet.Keystore.Transaction.{◌>>◌, pure}
use symbiont_wallet.Keystore.Store.{Db, put_record}
use symbiont_wallet.Keystore.Lifecycle.{has_outpoints}
use symbiont_wallet.Keystore.Outpoints.{recovery_outpoint_set, any_present}
use symbiont_wallet.Keystore.Recovery.{still_pending, observed, observe_recoverable_outpoints}
use symbiont_wallet.Keystore.Inversion.{
  after_bind, fail_when_ok, pure_ok, rows, find_record_ok, put_record_ok,
}
use symbiont_wallet.Keystore.Writes.{state_is, update_ok, Rewrites, rewrites}

module _ (bolt : Bolt) where
  -- Which record the observation of `current` writes, and what it reports.
  abbrev pub Observes :
      Bool → List RecoveryOutpoint → Bool → AddressRecord → AddressRecord → Bool → Type 0
  Observes true current mature rec rec' became = (rec' ≡ still_pending rec) × (became ≡ false)
  Observes false current mature rec rec' became =
      (rec' ≡ observed current mature rec)
      × (became ≡ (not rec.has_recoverable_balance && (mature && has_outpoints current)))

  observe_branch :
      (present : Bool) (key : Bytes) (rec : AddressRecord) (current : List RecoveryOutpoint)
      (mature : Bool) (db db' : Db bolt) {became : Bool}
      → (if present
            then (put_record bolt key (still_pending rec) >> pure false)
            else (put_record bolt key (observed current mature rec)
                >> pure (not rec.has_recoverable_balance && (mature && has_outpoints current))))
          db
        ≡ ok (became, db')
      → (rec' : AddressRecord) × Observes present current mature rec rec' became
        × (rows bolt db' ≡ insert key rec' (rows bolt db))
        × (db'.meta ≡ db.meta)
        × (db'.transactions ≡ db.transactions)
        × (db'.pending_broadcasts ≡ db.pending_broadcasts)
  observe_branch true key rec current mature db db' h = after_bind _ _ db db' h λ w db1 e1 h1.
      let (wrote, meta, txs, pend) = put_record_ok bolt _ _ db db1 e1 in
      let (e, same) = pure_ok _ db1 db' h1 in
      rw same (still_pending rec, (refl, e), wrote, meta, txs, pend)
  observe_branch false key rec current mature db db' h = after_bind _ _ db db' h λ w db1 e1 h1.
      let (wrote, meta, txs, pend) = put_record_ok bolt _ _ db db1 e1 in
      let (e, same) = pure_ok _ db1 db' h1 in
      rw same (observed current mature rec, (refl, e), wrote, meta, txs, pend)

  -- `ObserveRecoverableOutpoints` succeeds on a SPENT address, and only its recovery fields move.
  pub observe_recoverable_outpoints_ok :
      (addr : Bytes) (current : List RecoveryOutpoint) (mature : Bool) (db db' : Db bolt)
      {became : Bool}
      → observe_recoverable_outpoints bolt addr current mature db ≡ (ok became, db')
      → (key : Bytes) × (rec : AddressRecord) × (rec' : AddressRecord) × (rec.address ≡ addr)
        × (rec.state ≡ spent)
        × Observes
            (any_present (recovery_outpoint_set current) rec.recovery_pending_outpoints)
            current
            mature
            rec
            rec'
            became
        × Rewrites bolt db db' key rec rec'
  unfolding observe_recoverable_outpoints
  observe_recoverable_outpoints_ok addr current mature db db' h =
      after_bind _ _ db db' (update_ok _ db db' h) λ found db1 e1 h1.
        after_bind _ _ db1 db' h1 λ w db2 e2 h2.
          let (same1, scan, at, named) = find_record_ok bolt addr db db1 e1 in
          let (is_spent, same2) = fail_when_ok _ _ db1 db2 e2 in
          let (rec', observes, wrote, meta, txs, pend) =
            observe_branch _ found.0 found.1 current mature db2 db' h2 in
          (
            found.0,
            found.1,
            rec',
            named,
            state_is _ _ is_spent,
            observes,
            rewrites bolt (same2 ∙ same1) at wrote meta txs pend,
          )
