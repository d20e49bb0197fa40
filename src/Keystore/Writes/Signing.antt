-- ===== src/Keystore/Writes/Signing.antt =====
-- keystore.go: what both signing transitions write when they succeed: the source's record, the
-- reserved change address and the pending broadcast, in one transaction.
use symbiont_wallet.Base.{
  ◌≡◌, refl, ap, ◌∙◌, inl, inr, Bool, true, false, not, Option, none, some, List, [], ◌∷◌, ok,
  arith, Option-cases,
}
use symbiont_wallet.Base.Bytes.{Bytes}
use symbiont_wallet.Keystore.Types.{
  fresh, funded, spend_pending, spent, AddressRecord, RecoveryOutpoint, PendingBroadcast,
}
use symbiont_wallet.Keystore.Bolt.{Bolt, Entries, lookup, insert}
use symbiont_wallet.Keystore.Transaction.{◌>>=◌, ◌>>◌, pure, fail}
use symbiont_wallet.Keystore.Store.{Db, put_record}
use symbiont_wallet.Keystore.Pending.{
  kind_spend, kind_recovery, is_incomplete_pending, matches_transition, store_pending,
  put_pending_broadcast, put_pending_for_transition,
}
use symbiont_wallet.Keystore.Lifecycle.{find_change, reserve_change, mark_spend_pending}
use symbiont_wallet.Keystore.Outpoints.{recovery_outpoint_subset}
use symbiont_wallet.Keystore.Recovery.{recovering, mark_recovery_pending}
use symbiont_wallet.Keystore.Inversion.{
  after_bind, fail_when_ok, pure_ok, rows, find_record_ok, put_record_ok,
}
use symbiont_wallet.Keystore.Writes.{state_is, or_false, no_outpoints, update_ok}

-- What `find_change` returns for a change address, over the stored records `m`.
abbrev pub IsChange : Bytes → Entries AddressRecord → Option (Bytes × AddressRecord) → Type 0
IsChange addr m none = addr ≡ []
IsChange addr m (some (key, rec)) =
    (rec.address ≡ addr) × (lookup key m ≡ some rec) × (rec.state ≡ fresh) × (rec.reserved ≡ false)

-- The records after the change address is reserved.
abbrev pub reserving :
    Option (Bytes × AddressRecord) → Entries AddressRecord → Entries AddressRecord
reserving none m = m
reserving (some (key, rec)) m = insert key (record rec { reserved = true }) m

-- The pending broadcasts after a signing that hands in the list `pending`.
abbrev pub filing : List PendingBroadcast → Entries PendingBroadcast → Entries PendingBroadcast
filing [] m = m
filing (p ∷ ps) m = insert p.txid p m

-- What is known of that list: one complete record of this very transaction, under a new txid.
abbrev pub IsFiled :
    Bytes → Bytes → Bytes → List PendingBroadcast → Entries PendingBroadcast → Type 0
IsFiled txid source kind [] m = Unit
IsFiled txid source kind (p ∷ ps) m =
    (ps ≡ [])
    × (matches_transition txid source kind p ≡ true)
    × (is_incomplete_pending p ≡ false)
    × (lookup p.txid m ≡ none)

not-false : (b : Bool) → not b ≡ false → b ≡ true
not-false b h = ground arith

module _ (bolt : Bolt) where
  open bolt use {get, put, entries, get-lookup, put-insert}

  abbrev pub pending_rows : Db bolt → Entries PendingBroadcast
  pending_rows db = entries db.pending_broadcasts

  pub find_change_ok :
      (addr : Bytes) (db db' : Db bolt) {found : Option (Bytes × AddressRecord)}
      → find_change bolt addr db ≡ ok (found, db')
      → (db' ≡ db) × IsChange addr (rows bolt db) found
  unfolding find_change
  find_change_ok [] db db' h = let (e, same) = pure_ok _ db db' h in (same, rw e refl)
  find_change_ok (c ∷ cs) db db' h = after_bind _ _ db db' h λ found db1 e1 h1.
      after_bind _ _ db1 db' h1 λ w db2 e2 h2.
        let (same1, scan, at, named) = find_record_ok bolt (c ∷ cs) db db1 e1 in
        let (is_free, same2) = fail_when_ok _ _ db1 db2 e2 in
        let (is_fresh, is_unreserved) = or_false _ _ is_free in
        let (e, same3) = pure_ok _ db2 db' h2 in
        (same3 ∙ (same2 ∙ same1), rw e (named, at, state_is _ _ is_fresh, is_unreserved))

  pub reserve_change_ok :
      (change : Option (Bytes × AddressRecord)) (db db' : Db bolt) {u : Unit {0}}
      → reserve_change bolt change db ≡ ok (u, db')
      → (rows bolt db' ≡ reserving change (rows bolt db))
        × (db'.meta ≡ db.meta)
        × (db'.transactions ≡ db.transactions)
        × (db'.pending_broadcasts ≡ db.pending_broadcasts)
  unfolding reserve_change pure
  reserve_change_ok none db db' h = ground arith
  reserve_change_ok (some (key, rec)) db db' h = put_record_ok bolt key _ db db' h

  store_pending_ok :
      (p : PendingBroadcast) (db db' : Db bolt) {u : Unit {0}}
      → store_pending bolt p db ≡ ok (u, db')
      → (lookup p.txid (pending_rows db) ≡ none)
        × (pending_rows db' ≡ insert p.txid p (pending_rows db))
        × (db'.addresses ≡ db.addresses)
        × (db'.meta ≡ db.meta)
        × (db'.transactions ≡ db.transactions)
  unfolding store_pending
  store_pending_ok p db db' h = elim (Option-cases (put db.pending_broadcasts p.txid p)) [
    | inl e ↦ ground (arith, get-lookup db.pending_broadcasts p.txid)
    | inr (t, e) ↦ ground (
      arith,
      get-lookup db.pending_broadcasts p.txid,
      put-insert db.pending_broadcasts p.txid p e,
    )
  ]

  put_pending_broadcast_ok :
      (p : PendingBroadcast) (db db' : Db bolt) {u : Unit {0}}
      → put_pending_broadcast bolt p db ≡ ok (u, db')
      → (is_incomplete_pending p ≡ false)
        × (lookup p.txid (pending_rows db) ≡ none)
        × (pending_rows db' ≡ insert p.txid p (pending_rows db))
        × (db'.addresses ≡ db.addresses)
        × (db'.meta ≡ db.meta)
        × (db'.transactions ≡ db.transactions)
  unfolding put_pending_broadcast
  put_pending_broadcast_ok p db db' h = after_bind _ _ db db' h λ w db1 e1 h1.
      let (complete, same) = fail_when_ok _ _ db db1 e1 in
      let (unused, filed, addresses, meta, transactions) =
        rw same at (store_pending_ok p db1 db' h1) in
      (complete, unused, filed, addresses, meta, transactions)

  pub put_pending_for_transition_ok :
      (txid source kind : Bytes) (pending : List PendingBroadcast) (db db' : Db bolt) {u : Unit {0}}
      → put_pending_for_transition bolt txid source kind pending db ≡ ok (u, db')
      → IsFiled txid source kind pending (pending_rows db)
        × (pending_rows db' ≡ filing pending (pending_rows db))
        × (db'.addresses ≡ db.addresses)
        × (db'.meta ≡ db.meta)
        × (db'.transactions ≡ db.transactions)
  unfolding put_pending_for_transition
  put_pending_for_transition_ok txid source kind [] db db' h =
      let (e, same) = pure_ok _ db db' h in rw same (tt, refl, refl, refl, refl)
  put_pending_for_transition_ok txid source kind (p ∷ []) db db' h =
      after_bind _ _ db db' h λ w db1 e1 h1.
        let (matches, same) = fail_when_ok _ _ db db1 e1 in
        let (complete, unused, filed, addresses, meta, transactions) =
          rw same at (put_pending_broadcast_ok p db1 db' h1) in
        ((refl, not-false _ matches, complete, unused), filed, addresses, meta, transactions)
  put_pending_for_transition_ok txid source kind (p ∷ q ∷ ps) db db' h = unfold fail in cc

  -- What a signing transition from `from_addr` did between `db` and `db'`: `from` became `from'`.
  pub record Signs (txid source kind change_addr : Bytes) (pending : List PendingBroadcast)
      (db db' : Db bolt) (from from' : AddressRecord) : Type 0 where
    pub key : Bytes
    pub change : Option (Bytes × AddressRecord)
    pub found : lookup key (rows bolt db) ≡ some from
    pub named : from.address ≡ source
    pub change_found : IsChange change_addr (rows bolt db) change
    pub filed : IsFiled txid source kind pending (pending_rows db)
    pub written : rows bolt db' ≡ reserving change (insert key from' (rows bolt db))
    pub pending_written : pending_rows db' ≡ filing pending (pending_rows db)
    pub meta_kept : db'.meta ≡ db.meta
    pub transactions_kept : db'.transactions ≡ db.transactions

  -- The common tail of both transitions, from the check of the change address on.
  signing_tail :
      (txid source kind change_addr : Bytes) (pending : List PendingBroadcast) (key : Bytes)
      (from from' : AddressRecord) (db db' : Db bolt) {u : Unit {0}}
      → lookup key (rows bolt db) ≡ some from
      → from.address ≡ source
      → (find_change bolt change_addr >>= λ (change : Option (Bytes × AddressRecord)).
            put_pending_for_transition bolt txid source kind pending
            >> (put_record bolt key from' >> reserve_change bolt change))
          db
        ≡ ok (u, db')
      → Signs txid source kind change_addr pending db db' from from'
  signing_tail txid source kind change_addr pending key from from' db db' at named h =
      after_bind _ _ db db' h λ change db1 e1 h1. after_bind _ _ db1 db' h1 λ w db2 e2 h2.
        after_bind _ _ db2 db' h2 λ w' db3 e3 h3.
          let (same, is_change) = find_change_ok change_addr db db1 e1 in
          let (is_filed, filed, addresses, meta2, txs2) =
            rw same at (put_pending_for_transition_ok txid source kind pending db1 db2 e2) in
          let (wrote, meta3, txs3, pend3) = put_record_ok bolt key from' db2 db3 e3 in
          let (reserved, meta4, txs4, pend4) = reserve_change_ok change db3 db' h3 in
          record {
            key = key;
            change = change;
            found = at;
            named = named;
            change_found = is_change;
            filed = is_filed;
            written =
                reserved
                ∙ ap (reserving change) (
                    wrote
                    ∙ ap (λ (t : bolt.Bucket AddressRecord). insert key from' (entries t))
                        addresses);
            pending_written =
                ap (λ (t : bolt.Bucket PendingBroadcast). entries t) (pend4 ∙ pend3) ∙ filed;
            meta_kept = meta4 ∙ (meta3 ∙ meta2);
            transactions_kept = txs4 ∙ (txs3 ∙ txs2);
          }

  -- `MarkSpendPendingAndReserveChange` succeeds on a FUNDED source alone.
  pub mark_spend_pending_ok :
      (from_addr change_addr txid : Bytes) (pending : List PendingBroadcast) (db db' : Db bolt)
      {u : Unit {0}}
      → mark_spend_pending bolt from_addr change_addr txid pending db ≡ (ok u, db')
      → (from : AddressRecord) × (from.state ≡ funded)
        × Signs txid from_addr kind_spend change_addr pending db db' from
            (record from { state = spend_pending; spend_txid = txid })
  unfolding mark_spend_pending
  mark_spend_pending_ok from_addr change_addr txid pending db db' h =
      after_bind _ _ db db' (update_ok _ db db' h) λ found db1 e1 h1.
        after_bind _ _ db1 db' h1 λ w db2 e2 h2.
          let (same1, scan, at, named) = find_record_ok bolt from_addr db db1 e1 in
          let (is_funded, same2) = fail_when_ok _ _ db1 db2 e2 in
          (
            found.1,
            state_is _ _ is_funded,
            signing_tail txid from_addr kind_spend change_addr pending found.0 found.1 _ db db' at
                named (rw (same2 ∙ same1) at h2),
          )

  -- `MarkRecoveryPendingAndReserveChange` succeeds on a SPENT source with the authority for all
  -- the outpoints, and no recovery under way.
  pub mark_recovery_pending_ok :
      (from_addr change_addr txid : Bytes) (outpoints : List RecoveryOutpoint)
      (pending : List PendingBroadcast) (db db' : Db bolt) {u : Unit {0}}
      → mark_recovery_pending bolt from_addr change_addr txid outpoints pending db ≡ (ok u, db')
      → (from : AddressRecord) × (from.state ≡ spent)
        × (from.recovery_pending_outpoints ≡ [])
        × (from.has_recoverable_balance ≡ true)
        × (recovery_outpoint_subset from.recoverable_outpoints outpoints ≡ true)
        × Signs txid from_addr kind_recovery change_addr pending db db' from
            (recovering txid outpoints from)
  unfolding mark_recovery_pending
  mark_recovery_pending_ok from_addr change_addr txid outpoints pending db db' h =
      after_bind _ _ db db' (update_ok _ db db' h) λ found db1 e1 h1.
        after_bind _ _ db1 db' h1 λ w db2 e2 h2. after_bind _ _ db2 db' h2 λ w' db3 e3 h3.
          after_bind _ _ db3 db' h3 λ w'' db4 e4 h4.
            let (same1, scan, at, named) = find_record_ok bolt from_addr db db1 e1 in
            let (is_spent, same2) = fail_when_ok _ _ db1 db2 e2 in
            let (is_idle, same3) = fail_when_ok _ _ db2 db3 e3 in
            let (allowed, same4) = fail_when_ok _ _ db3 db4 e4 in
            let (has_balance, is_subset) = or_false _ _ allowed in
            (
              found.1,
              state_is _ _ is_spent,
              no_outpoints _ is_idle,
              not-false _ has_balance,
              not-false _ is_subset,
              signing_tail txid from_addr kind_recovery change_addr pending found.0 found.1 _ db db'
                  at named (rw (same4 ∙ (same3 ∙ (same2 ∙ same1))) at h4),
            )
