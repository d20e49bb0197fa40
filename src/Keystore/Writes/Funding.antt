-- ===== src/Keystore/Writes/Funding.antt =====
-- history.go: the history is only added to, and what a funding with history writes.
use symbiont_wallet.Base.{
  ◌≡◌, ◌≢◌, refl, sym, ap, ◌∙◌, inl, inr, Bool, true, false, not, none, some, List, [], ◌∷◌, All,
  ok, arith, Option-cases, Result-cases,
}
use symbiont_wallet.Base.Bytes.{Bytes, bytes_eq, bytes_eq_iff, bytes_eq_refl}
use symbiont_wallet.Base.Int64.{ℤ, pos, add64, eq_ℤ, eq_ℤ_eq}
use symbiont_wallet.Keystore.Types.{
  fresh, funded, AddressRecord, TransactionRecord, transaction_incoming,
}
use symbiont_wallet.Keystore.Bolt.{Bolt, Entries, lookup, insert}
use symbiont_wallet.Keystore.Store.{Db}
use symbiont_wallet.Keystore.History.{
  history_key, history_eq, write_once, put_history_record, record_incoming, check_incoming,
  mark_funded_and_record_incoming,
}
use symbiont_wallet.Keystore.Lifecycle.{has_outpoints}
use symbiont_wallet.Keystore.Rows.{lookup-insert}
use symbiont_wallet.Keystore.Inversion.{
  after_bind, fail_when_ok, pure_ok, rows, find_record_ok, put_record_ok,
}
use symbiont_wallet.Keystore.Writes.{state_is, or_false, update_ok}

-- Every entry of `m` is one of `m'`, unchanged.
abbrev pub Grows : Entries TransactionRecord → Entries TransactionRecord → Type 0
Grows m m' = (k : Bytes) (r : TransactionRecord) → lookup k m ≡ some r → lookup k m' ≡ some r

-- The record stands in the history, under its own key.
abbrev pub IsRecorded : TransactionRecord → Entries TransactionRecord → Type 0
IsRecorded rec m = (key : Bytes) × (history_key rec ≡ ok key) × (lookup key m ≡ some rec)

-- The sum that the code forms, with the wrap-around of `int64`.
abbrev pub total_of : ℤ → List TransactionRecord → ℤ
total_of total [] = total
total_of total (h ∷ hs) = total_of (add64 total h.amount_sats) hs

-- What each incoming record has to be.
abbrev pub IsIncoming : Bytes → Entries TransactionRecord → TransactionRecord → Type 0
IsIncoming addr m rec =
    (rec.direction ≡ transaction_incoming) × (rec.destination ≡ addr) × IsRecorded rec m

pub history_eq-eq : (a b : TransactionRecord) → history_eq a b ≡ true → a ≡ b
unfolding history_eq
history_eq-eq a b h = ground (
  arith,
  bytes_eq_iff a.direction b.direction,
  bytes_eq_iff a.txid b.txid,
  bytes_eq_iff a.source_address b.source_address,
  bytes_eq_iff a.destination b.destination,
  bytes_eq_iff a.destination_type b.destination_type,
  eq_ℤ_eq a.amount_sats b.amount_sats,
  eq_ℤ_eq a.fee_sats b.fee_sats,
)

Grows-trans : (m m' m'' : Entries TransactionRecord) → Grows m m' → Grows m' m'' → Grows m m''
Grows-trans m m' m'' f g k r e = g k r (f k r e)

lookup-insert_self :
    (key : Bytes) (rec : TransactionRecord) (m : Entries TransactionRecord)
    → lookup key (insert key rec m) ≡ some rec
lookup-insert_self key rec m = ground (arith, lookup-insert key key rec m, bytes_eq_refl key)

Grows-insert :
    (key : Bytes) (rec : TransactionRecord) (m : Entries TransactionRecord)
    → lookup key m ≡ none
    → Grows m (insert key rec m)
Grows-insert key rec m unused k r at = ground (arith, lookup-insert k key rec m, bytes_eq_iff k key)

not_none : (xs : List TransactionRecord) → not (has_outpoints xs) ≡ false → xs ≢ []
not_none [] h e = cc
not_none (x ∷ xs) h e = cc

bytes_is : (a b : Bytes) → not (bytes_eq a b) ≡ false → a ≡ b
bytes_is a b h = ground (arith, bytes_eq_iff a b)

eq_ℤ_is : (a b : ℤ) → not (eq_ℤ a b) ≡ false → a ≡ b
eq_ℤ_is a b h = ground (arith, eq_ℤ_eq a b)

module _ (bolt : Bolt) where
  open bolt use {get, put, entries, get-lookup, put-insert}

  abbrev pub history_rows : Db bolt → Entries TransactionRecord
  history_rows db = entries db.transactions

  -- Everything but the history is as it was.
  abbrev pub KeepsRest : Db bolt → Db bolt → Type 0
  KeepsRest db db' =
      (db'.addresses ≡ db.addresses)
      × (db'.meta ≡ db.meta)
      × (db'.pending_broadcasts ≡ db.pending_broadcasts)

  write_once_ok :
      (key : Bytes) (rec : TransactionRecord) (db db' : Db bolt) {u : Unit {0}}
      → write_once bolt key rec db ≡ ok (u, db')
      → Grows (history_rows db) (history_rows db')
        × (lookup key (history_rows db') ≡ some rec)
        × KeepsRest db db'
  unfolding write_once
  write_once_ok key rec db db' h = elim (Option-cases (lookup key (history_rows db))) [
    | inr (old, e) ↦
        let (same, equal) = kept old e in
        rw same (λ k r at. at, e ∙ ap some (history_eq-eq old rec equal), (refl, refl, refl))
    | inl unused ↦ elim (Option-cases (put db.transactions key rec)) [
      | inl e ↦ absurd (ground (arith, get-lookup db.transactions key))
      | inr (t, e) ↦ rw (stored unused t e) (
        rw (put-insert db.transactions key rec e) (Grows-insert key rec _ unused),
        rw (put-insert db.transactions key rec e) (lookup-insert_self key rec _),
        (refl, refl, refl),
      )
    ]
  ]
    where
      kept :
          (old : TransactionRecord)
          → lookup key (history_rows db) ≡ some old
          → (db' ≡ db) × (history_eq old rec ≡ true)
      kept old e = ground (arith, get-lookup db.transactions key)

      stored :
          lookup key (history_rows db) ≡ none
          → (t : bolt.Bucket TransactionRecord) → put db.transactions key rec ≡ some t
          → db' ≡ record db { transactions = t }
      stored unused t e = ground (arith, get-lookup db.transactions key)

  pub put_history_record_ok :
      (rec : TransactionRecord) (db db' : Db bolt) {u : Unit {0}}
      → put_history_record bolt rec db ≡ ok (u, db')
      → Grows (history_rows db) (history_rows db')
        × IsRecorded rec (history_rows db')
        × KeepsRest db db'
  unfolding put_history_record
  put_history_record_ok rec db db' h = elim (Result-cases (history_key rec)) [
    | inr (x, e) ↦ ground arith
    | inl (key, e) ↦
        let (grows, at, kept) = write_once_ok key rec db db' (rw (e, put_history_record) at h) in
        (grows, (key, e, at), kept)
  ]

  KeepsRest-trans :
      (db db' db'' : Db bolt) → KeepsRest db db' → KeepsRest db' db'' → KeepsRest db db''
  KeepsRest-trans db db' db'' f g = (g.0 ∙ f.0, g.1 ∙ f.1, g.2 ∙ f.2)

  record_incoming_ok :
      (addr : Bytes) (total : ℤ) (incoming : List TransactionRecord) (db db' : Db bolt) {sum : ℤ}
      → record_incoming bolt addr total incoming db ≡ ok (sum, db')
      → (sum ≡ total_of total incoming)
        × Grows (history_rows db) (history_rows db')
        × All (IsIncoming addr (history_rows db')) incoming
        × KeepsRest db db'
  unfolding record_incoming
  record_incoming_ok addr total [] db db' h =
      let (e, same) = pure_ok _ db db' h in rw same (e, λ k r at. at, tt, (refl, refl, refl))
  record_incoming_ok addr total (history ∷ rest) db db' h = after_bind _ _ db db' h λ w db1 e1 h1.
      after_bind _ _ db1 db' h1 λ w' db2 e2 h2.
        let (accepted, same) = fail_when_ok _ _ db db1 e1 in
        let (dir, dest) = or_false _ _ accepted in
        let (grows, recorded, kept) = rw same at (put_history_record_ok history db1 db2 e2) in
        let (sum_eq, grows', all, kept') =
          record_incoming_ok addr (add64 total history.amount_sats) rest db2 db' h2 in
        (
          sum_eq,
          Grows-trans _ _ _ grows grows',
          (
            (
              bytes_is _ _ dir,
              bytes_is _ _ dest,
              (recorded.0, recorded.1, grows' recorded.0 history recorded.2),
            ),
            all,
          ),
          KeepsRest-trans db db2 db' kept kept',
        )

  -- What an external funding of `balance` has to show: records that add up to it, all written.
  abbrev pub IsAccounted :
      Bool → Bytes → ℤ → List TransactionRecord → Entries TransactionRecord → Type 0
  IsAccounted true addr balance incoming m = Unit
  IsAccounted false addr balance incoming m =
      (incoming ≢ []) × (total_of (pos 0) incoming ≡ balance) × All (IsIncoming addr m) incoming

  check_incoming_ok :
      (reserved : Bool) (addr : Bytes) (balance : ℤ) (incoming : List TransactionRecord)
      (db db' : Db bolt) {u : Unit {0}}
      → check_incoming bolt reserved addr balance incoming db ≡ ok (u, db')
      → Grows (history_rows db) (history_rows db')
        × IsAccounted reserved addr balance incoming (history_rows db')
        × KeepsRest db db'
  unfolding check_incoming
  check_incoming_ok true addr balance incoming db db' h =
      let (e, same) = pure_ok _ db db' h in rw same (λ k r at. at, tt, (refl, refl, refl))
  check_incoming_ok false addr balance incoming db db' h = after_bind _ _ db db' h λ w db1 e1 h1.
      after_bind _ _ db1 db' h1 λ sum db2 e2 h2.
        let (some_record, same) = fail_when_ok _ _ db db1 e1 in
        let (sum_eq, grows, all, kept) =
          rw same at (record_incoming_ok addr (pos 0) incoming db1 db2 e2) in
        let (balanced, same2) = fail_when_ok _ _ db2 db' h2 in
        rw same2
          (grows, (not_none incoming some_record, sym sum_eq ∙ eq_ℤ_is _ _ balanced, all), kept)

  -- `MarkFundedAndRecordIncoming` succeeds on a FRESH address; unless it was reserved for change,
  -- the history accounts for the balance afterwards.
  pub mark_funded_and_record_incoming_ok :
      (addr : Bytes) (balance : ℤ) (incoming : List TransactionRecord) (db db' : Db bolt)
      {was_reserved : Bool}
      → mark_funded_and_record_incoming bolt addr balance incoming db ≡ (ok was_reserved, db')
      → (key : Bytes) × (rec : AddressRecord) × (rec.address ≡ addr)
        × (rec.state ≡ fresh)
        × (was_reserved ≡ rec.reserved)
        × (lookup key (rows bolt db) ≡ some rec)
        × (rows bolt db'
            ≡ insert key (record rec { state = funded; reserved = false }) (rows bolt db))
        × Grows (history_rows db) (history_rows db')
        × IsAccounted rec.reserved addr balance incoming (history_rows db')
        × (db'.meta ≡ db.meta)
        × (db'.pending_broadcasts ≡ db.pending_broadcasts)
  unfolding mark_funded_and_record_incoming
  mark_funded_and_record_incoming_ok addr balance incoming db db' h =
      after_bind _ _ db db' (update_ok _ db db' h) λ found db1 e1 h1.
        after_bind _ _ db1 db' h1 λ w db2 e2 h2. after_bind _ _ db2 db' h2 λ w' db3 e3 h3.
          after_bind _ _ db3 db' h3 λ w'' db4 e4 h4.
            let (same1, scan, at, named) = find_record_ok bolt addr db db1 e1 in
            let (is_fresh, same2) = fail_when_ok _ _ db1 db2 e2 in
            let (grows, accounted, kept) =
              rw (same2 ∙ same1) at
                (check_incoming_ok found.1.reserved addr balance incoming db2 db3 e3) in
            let (wrote, meta, txs, pend) = put_record_ok bolt _ _ db3 db4 e4 in
            let (result, same5) = pure_ok _ db4 db' h4 in
            rw same5 (
              found.0,
              found.1,
              named,
              state_is _ _ is_fresh,
              result,
              at,
              wrote
                  ∙ ap (insert found.0 _)
                      (ap (λ (t : bolt.Bucket AddressRecord). entries t) kept.0),
              rw txs grows,
              rw txs accounted,
              meta ∙ kept.1,
              pend ∙ kept.2,
            )
