-- ===== src/Wallet/Confirming.antt =====
-- wallet.go: what `ObserveSpendConfirmation` has done when it reports a change.
use symbiont_wallet.Base.{
  ℕ, ◌+◌, ◌<◌, ◌≡◌, ap, ◌∙◌, subst, true, false, not, ◌||◌, inl, inr, some, Option, Result, ok,
  if◌then◌else◌, arith, Bool-cases, Option-cases, Result-cases,
}
use symbiont_wallet.Base.Bytes.{Bytes, bytes_eq, bytes_eq_iff, bytes_eq_refl}
use symbiont_wallet.Base.Int64.{ℤ, pos, ltb_ℤ, word}
use symbiont_wallet.Keystore.Types.{AddressRecord, spend_pending, spent, state_eq}
use symbiont_wallet.Keystore.Types as K
use symbiont_wallet.Keystore.Bolt.{Bolt, lookup}
use symbiont_wallet.Keystore.Store.{Db, find_address}
use symbiont_wallet.Keystore.Generate.{Derived}
use symbiont_wallet.Keystore.Lifecycle.{mark_spent}
use symbiont_wallet.Keystore.Pending.{is_empty}
use symbiont_wallet.Keystore.Queries.{get_record}
use symbiont_wallet.Keystore.Rows.{lookup-insert}
use symbiont_wallet.Keystore.Inversion.{rows}
use symbiont_wallet.Keystore.Writes.{transition_ok}
use symbiont_wallet.Keystore.Evolution.{mark_spent-DbEvolves}
use symbiont_wallet.Keystore.Indexed.{IsIndexed, DbEvolves-IsIndexed}
use symbiont_wallet.Keystore.Kept.{pre_generate-Keeps}
use symbiont_wallet.Wallet.Observe.{
  pool_size, fill_pool, refilled, confirmed, on_confirmation, observe_spend_confirmation,
}

module _ (bolt : Bolt) where
  -- The record of `addr`, the first one stored, was a signed spend by `txid`. It is now SPENT, with
  -- all its other fields as they were, and every other record is as it was.
  pub record Confirms (addr txid : Bytes) (db db' : Db bolt) : Type 0 where
    pub key : Bytes
    pub rec : AddressRecord
    pub scanned : find_address addr (rows bolt db) ≡ some (key, rec)
    pub found : lookup key (rows bolt db) ≡ some rec
    pub named : rec.address ≡ addr
    pub was_pending : rec.state ≡ spend_pending
    pub spends : rec.spend_txid ≡ txid
    pub stored : lookup key (rows bolt db') ≡ some (record rec { state = spent })
    pub others :
        (k : Bytes) (r : AddressRecord)
        → bytes_eq k key ≡ false
        → lookup k (rows bolt db) ≡ some r
        → lookup k (rows bolt db') ≡ some r

module _ (bolt : Bolt) (derive : Bytes → ℕ → Option Derived) (seed : Option Bytes) where
  mark_spent_filled :
      (addr txid key : Bytes) (rec : AddressRecord) (db db1 : Db bolt) (n : ℕ) {u : Unit {0}}
      → IsIndexed bolt db n
      → n + pool_size < word
      → find_address addr (rows bolt db) ≡ some (key, rec)
      → rec.spend_txid ≡ txid
      → mark_spent bolt addr db ≡ (ok u, db1)
      → Confirms bolt addr txid db (fill_pool bolt derive seed db1)
  mark_spent_filled addr txid key rec db db1 n h room scan spends e =
      let (key', rec0, scan', named, is_pending, w) =
        transition_ok bolt addr spend_pending spent false db db1 (λ k. cc)
          (unfold mark_spent in e) in
      let kept : rec0 ≡ rec = ground (arith, scan, scan') in
      let moved = mark_spent-DbEvolves bolt addr db in
      let indexed1 : IsIndexed bolt db1 n =
        subst (λ d. IsIndexed bolt d n) (ap (λ (x : Result K.Error (Unit {0}) × Db bolt). x.1) e)
          (DbEvolves-IsIndexed bolt db (mark_spent bolt addr db).1 n moved h) in
      let keeps = pre_generate-Keeps bolt derive pool_size seed db1 n indexed1 room in
      let at : (k : Bytes)
          → lookup k (rows bolt db1) ≡ (
              if bytes_eq k key'
              then some (record rec0 { state = spent })
              else lookup k (rows bolt db)) =
        λ k.
          ap (lookup k) (w.written)
          ∙ lookup-insert k key' (record rec0 { state = spent }) (rows bolt db) in
      record {
        key = key';
        rec = rec0;
        scanned = scan';
        found = w.found;
        named = named;
        was_pending = is_pending;
        spends = ap (λ (x : AddressRecord). x.spend_txid) kept ∙ spends;
        stored =
            keeps key' (record rec0 { state = spent })
              (ground (arith, at key', bytes_eq_refl key'));
        others = λ k r other e. keeps k r (ground (arith, at k, other, e));
      }

  after_mark_spent :
      (addr txid key : Bytes) (rec : AddressRecord) (db db' : Db bolt) (n : ℕ)
      → IsIndexed bolt db n
      → n + pool_size < word
      → find_address addr (rows bolt db) ≡ some (key, rec)
      → rec.spend_txid ≡ txid
      → confirmed bolt derive seed (refilled bolt derive seed tt (mark_spent bolt addr db))
        ≡ (ok true, db')
      → Confirms bolt addr txid db db'
  after_mark_spent addr txid key rec db db' n h room a spends e =
      let r = mark_spent bolt addr db in
      elim (Result-cases (r.0)) [
        | inr (bad, er) ↦ absurd (ground (arith, er))
        | inl (u, er) ↦
            let ran : mark_spent bolt addr db ≡ (ok u, r.1) = ap (λ x. (x, r.1)) er in
            let same : fill_pool bolt derive seed r.1 ≡ db' = ground (arith, ran) in
            subst (Confirms bolt addr txid db) same
              (mark_spent_filled addr txid key rec db r.1 n h room a spends ran)
      ]

  -- From a database that satisfies the invariant, where the pool can be filled without exhausting the
  -- uint64 counter: when `ObserveSpendConfirmation` reports a change, the node reported at least one
  -- confirmation, the address was SPEND_PENDING by exactly this transaction, and its record is stored
  -- at the same key as SPENT, with every other field of it kept, and every other record unchanged.
  pub observe_spend_confirmation_ok :
      (addr txid : Bytes) (confirmations : ℤ) (db db' : Db bolt) (n : ℕ)
      → IsIndexed bolt db n
      → n + pool_size < word
      → observe_spend_confirmation bolt derive seed addr txid confirmations db ≡ (ok true, db')
      → (ltb_ℤ confirmations (pos 1) ≡ false) × Confirms bolt addr txid db db'
  unfolding observe_spend_confirmation on_confirmation get_record
  observe_spend_confirmation_ok addr txid confirmations db db' n h room e =
      elim (Option-cases (find_address addr (rows bolt db))) [
        | inl a ↦ absurd (ground arith)
        | inr ((key, rec), a) ↦ elim (Bool-cases (not (state_eq rec.state spend_pending))) [
          | inl s ↦ absurd (ground arith)
          | inr s ↦
              elim (Bool-cases (is_empty rec.spend_txid || not (bytes_eq rec.spend_txid txid))) [
                | inl t ↦ absurd (ground arith)
                | inr t ↦ elim (Bool-cases (ltb_ℤ confirmations (pos 1))) [
                  | inl c ↦ absurd (ground arith)
                  | inr c ↦ (
                    c,
                    after_mark_spent addr txid key rec db db' n h room a
                        (ground (arith, t, bytes_eq_iff rec.spend_txid txid)) (ground arith),
                  )
                ]
              ]
        ]
      ]
