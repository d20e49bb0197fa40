-- ===== src/Keystore/Writes.antt =====
-- keystore.go: what the transitions with one address write when they succeed.
pub mod Signing
pub mod Funding
pub mod Observing
pub mod Generated
use symbiont_wallet.Base.{
  ℕ, ◌≡◌, ◌≢◌, refl, ap, ◌∙◌, inl, inr, Bool, true, false, not, ◌||◌, Option, none, some, List, [],
  ◌∷◌, Result, ok, err, arith, if◌then◌else◌,
}
use symbiont_wallet.Base.Bytes.{Bytes}
use symbiont_wallet.Keystore.Types.{
  AddressState, fresh, funded, spend_pending, spent, retired, state_eq, AddressRecord, Error,
}
use symbiont_wallet.Keystore.Bolt.{Bolt, lookup, insert}
use symbiont_wallet.Keystore.Transaction.{Tx, ◌>>=◌, ◌>>◌, pure, fail, fail_when, update}
use symbiont_wallet.Keystore.Store.{Db, find_address, find_record, put_record}
use symbiont_wallet.Keystore.Lifecycle.{
  mark_funded, transition, mark_spent, retire, has_outpoints, fail_with, transition_error,
}
use symbiont_wallet.Keystore.Inversion.{
  after_bind, fail_when_ok, update_cases, pure_ok, rows, find_record_ok, put_record_ok,
}

pub state_eq-eq : (s t : AddressState) → state_eq s t ≡ true → s ≡ t
state_eq-eq s t h = ground arith

pub state_eq_refl : (s : AddressState) → state_eq s s ≡ true
state_eq_refl s = ground arith

pub state_is : (s t : AddressState) → not (state_eq s t) ≡ false → s ≡ t
state_is s t h = ground arith

pub or_false : (a b : Bool) → (a || b) ≡ false → (a ≡ false) × (b ≡ false)
or_false a b h = ground arith

pub no_outpoints : {A : Type 0} (xs : List A) → has_outpoints xs ≡ false → xs ≡ []
no_outpoints [] h = refl
no_outpoints (x ∷ xs) h = cc

switch_ok :
    {S : Type 0} (s from : AddressState) (db db' : S) {u : Unit {0}}
    → from ≢ retired
    → (if state_eq s from then pure tt else fail_with (transition_error from)) db ≡ ok (u, db')
    → (s ≡ from) × (db' ≡ db)
unfolding pure fail
switch_ok s from db db' h e = ground (arith, state_eq-eq s from)

pub update_ok :
    {S A : Type 0} (m : Tx S A) (s s' : S) {a : A} → update m s ≡ (ok a, s') → m s ≡ ok (a, s')
unfolding update
update_ok m s s' h = elim (update_cases m s) [ inl (e, p, q) ↦ cc | inr (a, t, p, q) ↦ cc ]

module _ (bolt : Bolt) where
  -- From `db` to `db'` the record at `key` became `rec'`, and nothing else changed.
  pub record Rewrites (db db' : Db bolt) (key : Bytes) (rec rec' : AddressRecord) : Type 0 where
    pub found : lookup key (rows bolt db) ≡ some rec
    pub written : rows bolt db' ≡ insert key rec' (rows bolt db)
    pub meta_kept : db'.meta ≡ db.meta
    pub transactions_kept : db'.transactions ≡ db.transactions
    pub pending_kept : db'.pending_broadcasts ≡ db.pending_broadcasts

  pub rewrites :
      {db db1 db' : Db bolt} {key : Bytes} {rec rec' : AddressRecord}
      → db1 ≡ db
      → lookup key (rows bolt db) ≡ some rec
      → rows bolt db' ≡ insert key rec' (rows bolt db1)
      → db'.meta ≡ db1.meta
      → db'.transactions ≡ db1.transactions
      → db'.pending_broadcasts ≡ db1.pending_broadcasts
      → Rewrites db db' key rec rec'
  rewrites {key = key} {rec' = rec'} same at wrote meta txs pend = record {
    found = at;
    written = wrote ∙ ap (λ (d : Db bolt). insert key rec' (rows bolt d)) same;
    meta_kept = meta ∙ ap (λ (d : Db bolt). d.meta) same;
    transactions_kept = txs ∙ ap (λ (d : Db bolt). d.transactions) same;
    pending_kept = pend ∙ ap (λ (d : Db bolt). d.pending_broadcasts) same;
  }

  -- `MarkFunded` succeeds on a FRESH address alone, and makes it FUNDED and unreserved.
  pub mark_funded_ok :
      (addr : Bytes) (db db' : Db bolt) {u : Unit {0}}
      → mark_funded bolt addr db ≡ (ok u, db')
      → (key : Bytes) × (rec : AddressRecord) × (rec.address ≡ addr)
        × (rec.state ≡ fresh)
        × Rewrites db db' key rec (record rec { state = funded; reserved = false })
  unfolding mark_funded
  mark_funded_ok addr db db' h = after_bind _ _ db db' (update_ok _ db db' h) λ found db1 e1 h1.
      after_bind _ _ db1 db' h1 λ w db2 e2 h2.
        let (same1, scan, at, named) = find_record_ok bolt addr db db1 e1 in
        let (is_fresh, same2) = fail_when_ok _ _ db1 db2 e2 in
        let (wrote, meta, txs, pend) = put_record_ok bolt _ _ db2 db' h2 in
        (
          found.0,
          found.1,
          named,
          state_is _ _ is_fresh,
          rewrites (same2 ∙ same1) at wrote meta txs pend,
        )

  -- `transition` from a state that its `switch` names.
  pub transition_ok :
      (addr : Bytes) (from to : AddressState) (zero_seed : Bool) (db db' : Db bolt) {u : Unit {0}}
      → from ≢ retired
      → transition bolt addr from to zero_seed db ≡ (ok u, db')
      → (key : Bytes) × (rec : AddressRecord) × (find_address addr (rows bolt db) ≡ some (key, rec))
        × (rec.address ≡ addr)
        × (rec.state ≡ from)
        × Rewrites db db' key rec
            (record rec { state = to; enc_seed_blob = if zero_seed then [] else rec.enc_seed_blob })
  unfolding transition
  transition_ok addr from to zero_seed db db' named_state h =
      after_bind _ _ db db' (update_ok _ db db' h) λ found db1 e1 h1.
        after_bind _ _ db1 db' h1 λ w db2 e2 h2.
          let (same1, scan, at, named) = find_record_ok bolt addr db db1 e1 in
          let (state, same2) = switch_ok found.1.state from db1 db2 named_state e2 in
          let (wrote, meta, txs, pend) = put_record_ok bolt _ _ db2 db' h2 in
          (found.0, found.1, scan, named, state, rewrites (same2 ∙ same1) at wrote meta txs pend)

  -- `Retire` succeeds on a SPENT address with nothing to recover, and erases the key.
  pub retire_ok :
      (addr : Bytes) (db db' : Db bolt) {u : Unit {0}}
      → retire bolt addr db ≡ (ok u, db')
      → (key : Bytes) × (rec : AddressRecord) × (rec.address ≡ addr)
        × (rec.state ≡ spent)
        × (rec.has_recoverable_balance ≡ false)
        × (rec.recovery_pending_outpoints ≡ [])
        × Rewrites db db' key rec (record rec { state = retired; enc_seed_blob = [] })
  unfolding retire
  retire_ok addr db db' h = after_bind _ _ db db' (update_ok _ db db' h) λ found db1 e1 h1.
      after_bind _ _ db1 db' h1 λ w db2 e2 h2. after_bind _ _ db2 db' h2 λ w' db3 e3 h3.
        let (same1, scan, at, named) = find_record_ok bolt addr db db1 e1 in
        let (is_spent, same2) = fail_when_ok _ _ db1 db2 e2 in
        let (settled, same3) = fail_when_ok _ _ db2 db3 e3 in
        let (wrote, meta, txs, pend) = put_record_ok bolt _ _ db3 db' h3 in
        let (balance, outpoints) = or_false _ _ settled in
        (
          found.0,
          found.1,
          named,
          state_is _ _ is_spent,
          balance,
          no_outpoints _ outpoints,
          rewrites (same3 ∙ (same2 ∙ same1)) at wrote meta txs pend,
        )
