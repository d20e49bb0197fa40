-- ===== src/Gui/Settling.antt =====
-- main.go: a pending spend that the node has confirmed, and what settling it does to its source.
use symbiont_wallet.Base.{
  ℕ, ◌+◌, ◌<◌, ◌≡◌, ◌⊎◌, sym, ap, ◌∙◌, subst, true, false, ◌&&◌, ◌||◌, not, inl, inr, Option, none,
  some, List, [], ◌∷◌, All, Result, ok, err, Bool-cases, Option-cases, Result-cases, arith,
}
use symbiont_wallet.Base.Bytes.{Bytes, bytes_eq, bytes_eq_iff, bytes_eq_refl}
use symbiont_wallet.Base.Int64.{ℤ, pos, ltb_ℤ, word}
use symbiont_wallet.Keystore.Types.{
  AddressState, AddressRecord, PendingBroadcast, spent, spend_pending, state_eq,
}
use symbiont_wallet.Keystore.Bolt.{Bolt, Entries, lookup}
use symbiont_wallet.Keystore.Transaction.{Tx, update}
use symbiont_wallet.Keystore.Store.{Db}
use symbiont_wallet.Keystore.Generate.{Derived}
use symbiont_wallet.Keystore.Lifecycle.{transition, mark_spent}
use symbiont_wallet.Keystore.Pending.{delete_pending_broadcast}
use symbiont_wallet.Keystore.Queries.{get_record}
use symbiont_wallet.Keystore.Rows.{lookup-remove}
use symbiont_wallet.Keystore.Inversion.{rows, update_cases}
use symbiont_wallet.Keystore.Writes.{state_eq-eq}
use symbiont_wallet.Keystore.Pending.{is_empty}
use symbiont_wallet.Keystore.Indexed.{IsIndexed}
use symbiont_wallet.Wallet.Types as W
use symbiont_wallet.Wallet.Observe.{
  pool_size, fill_pool, on_confirmation, observe_spend_confirmation,
}
use symbiont_wallet.Wallet.Confirming.{observe_spend_confirmation_ok}
use symbiont_wallet.Wallet.Listing.{AddressInfo, info_of, list_addresses}
use symbiont_wallet.Wallet.Listed.{IsListed, list_addresses-All}
use symbiont_wallet.Gui.Pending.{
  Error, source_not_found, wallet_error, find_info, reconcile_spend, clear_pending,
}

find_info_ok {ℓ} :
    (P : AddressInfo → Type ℓ) (addr : Bytes) (infos : List AddressInfo) (info : AddressInfo)
    → All P infos
    → find_info addr infos ≡ some info
    → P info × (info.address ≡ addr)
unfolding find_info
find_info_ok P addr [] info h e = absurd (ground arith)
find_info_ok P addr (i ∷ infos) info (p, h) e = elim (Bool-cases (bytes_eq (i.address) addr)) [
  | inl s ↦
      let same : i ≡ info = ground arith in
      (subst P same p, ground (arith, same, bytes_eq_iff (i.address) addr))
  | inr s ↦ find_info_ok P addr infos info h (ground arith)
]

spent_info :
    (addr txid : Bytes) (info : AddressInfo) (rec : AddressRecord)
    → info ≡ info_of rec
    → info.address ≡ addr
    → (state_eq (info.state) spent && bytes_eq (info.spend_txid) txid) ≡ true
    → (rec.address ≡ addr) × (rec.spend_txid ≡ txid) × (rec.state ≡ spent)
unfolding info_of
spent_info addr txid info rec same named s =
    let by : rec.address ≡ info.address = sym (ap (λ (i : AddressInfo). i.address) same) in
    let tx : rec.spend_txid ≡ info.spend_txid = sym (ap (λ (i : AddressInfo). i.spend_txid) same) in
    let st : info.state ≡ rec.state = ap (λ (i : AddressInfo). i.state) same in
    (
      by ∙ named,
      tx ∙ (bytes_eq_iff (info.spend_txid) txid).0 (ground arith),
      sym st ∙ state_eq-eq (info.state) spent (ground arith),
    )

already_spent : (rec : AddressRecord) → rec.state ≡ spent → rec ≡ record rec { state = spent }
already_spent rec e = ap (λ (s : AddressState). record rec { state = s }) e

-- A failure leaves the database alone.
abbrev pub Fails : {X A S : Type 0} → S → Result X A × S → Type 0
Fails {X} s r = (e : X) × (r ≡ (err e, s))

update_result :
    {S A : Type 0} (m : Tx S A) (s : S)
    → Fails s (update m s) ⊎ ((a : A) × (s' : S) × (update m s ≡ (ok a, s')))
update_result m s = elim (update_cases m s) [
  | inl (e, fails, q) ↦ inl (e, q)
  | inr (a, s', succeeds, q) ↦ inr (a, s', q)
]

module _ (bolt : Bolt) where
  open bolt use {entries, entries_sorted, delete-remove}

  -- From `db` to the rows `m` the record of `addr`, which this transaction spends, has become SPENT, unless
  -- it was, with all its other fields as they were, and every other record is as it was.
  pub record SpentIn (addr txid : Bytes) (db : Db bolt) (m : Entries AddressRecord) : Type 0 where
    pub key : Bytes
    pub rec : AddressRecord
    pub found : lookup key (rows bolt db) ≡ some rec
    pub named : rec.address ≡ addr
    pub spends : rec.spend_txid ≡ txid
    pub was : (rec.state ≡ spend_pending) ⊎ (rec.state ≡ spent)
    pub stored : lookup key m ≡ some (record rec { state = spent })
    pub others :
        (k : Bytes) (r : AddressRecord)
        → bytes_eq k key ≡ false
        → lookup k (rows bolt db) ≡ some r
        → lookup k m ≡ some r

  abbrev pub IsSpentBy : Bytes → Bytes → Db bolt → Db bolt → Type 0
  IsSpentBy addr txid db db' = SpentIn addr txid db (rows bolt db')

  abbrev pub pending_at : Bytes → Db bolt → Option PendingBroadcast
  pending_at txid db = lookup txid (entries (db.pending_broadcasts))

  pub clear_pending_ok :
      (txid : Bytes) (db db' : Db bolt) (r : Result Error (Unit {0}))
      → clear_pending bolt txid db ≡ (r, db')
      → (r ≡ ok tt) × (rows bolt db' ≡ rows bolt db) × (pending_at txid db' ≡ none)
  unfolding clear_pending delete_pending_broadcast update
  clear_pending_ok txid db db' r e = ground (
    arith,
    delete-remove (db.pending_broadcasts) txid,
    lookup-remove txid txid (entries (db.pending_broadcasts))
        (entries_sorted (db.pending_broadcasts)),
    bytes_eq_refl txid,
  )

  mark_spent_cases :
      (addr : Bytes) (db : Db bolt)
      → Fails db (mark_spent bolt addr db)
        ⊎ ((u : Unit {0}) × (s : Db bolt) × (mark_spent bolt addr db ≡ (ok u, s)))
  unfolding mark_spent transition
  mark_spent_cases addr db = update_result _ db

  module _ (derive : Bytes → ℕ → Option Derived) (seed : Option Bytes) where
    observe_cases :
        (addr txid : Bytes) (confirmations : ℤ) (db : Db bolt)
        → ltb_ℤ confirmations (pos 1) ≡ false
        → let r = observe_spend_confirmation bolt derive seed addr txid confirmations db in
          Fails db r ⊎ ((s : Db bolt) × (r ≡ (ok true, s)))
    unfolding observe_spend_confirmation on_confirmation
    observe_cases addr txid confirmations db c = elim (Result-cases (get_record bolt addr db)) [
      | inr (e, g) ↦ inl (W.keystore_error e, ground arith)
      | inl (rec, g) ↦ elim (Bool-cases (not (state_eq rec.state spend_pending))) [
        | inl s ↦ inl (W.not_pending, ground arith)
        | inr s ↦
            elim (Bool-cases (is_empty rec.spend_txid || not (bytes_eq rec.spend_txid txid))) [
              | inl t ↦ inl (W.spend_txid_mismatch, ground arith)
              | inr t ↦ elim (mark_spent_cases addr db) [
                | inl (e, q) ↦ inl (W.keystore_error e, ground arith)
                | inr (u, d, q) ↦ inr (fill_pool bolt derive seed d, ground arith)
              ]
            ]
      ]
    ]

    confirmed_spent :
        (addr txid : Bytes) (confirmations : ℤ) (db db' : Db bolt) (n : ℕ)
        → IsIndexed bolt db n
        → n + pool_size < word
        → observe_spend_confirmation bolt derive seed addr txid confirmations db ≡ (ok true, db')
        → IsSpentBy addr txid db db'
    confirmed_spent addr txid confirmations db db' n h room e =
        let (c, k) =
          observe_spend_confirmation_ok bolt derive seed addr txid confirmations db db' n h room
            e in
        record {
          key = k.key;
          rec = k.rec;
          found = k.found;
          named = k.named;
          spends = k.spends;
          was = inl (k.was_pending);
          stored = k.stored;
          others = k.others;
        }

    pub reconcile_spend_cases :
        (entry : PendingBroadcast) (confirmations : ℤ) (db : Db bolt) (n : ℕ)
        → IsIndexed bolt db n
        → n + pool_size < word
        → ltb_ℤ confirmations (pos 1) ≡ false
        → let r = reconcile_spend bolt derive seed entry confirmations db in
          Fails db r
          ⊎ ((s : Db bolt) × (r ≡ (ok tt, s)) × IsSpentBy (entry.source_address) (entry.txid) db s)
    unfolding reconcile_spend
    reconcile_spend_cases entry confirmations db n h room c =
        let addr = entry.source_address in
        let txid = entry.txid in
        elim (Option-cases (find_info addr (list_addresses bolt db))) [
          | inl g ↦ inl (source_not_found, ground arith)
          | inr (info, g) ↦
              elim (Bool-cases (state_eq (info.state) spent && bytes_eq (info.spend_txid) txid)) [
                | inl s ↦ inr (db, ground arith, already info g s)
                | inr s ↦ elim (observe_cases addr txid confirmations db c) [
                  | inl (e, q) ↦ inl (wallet_error e, ground (arith, q))
                  | inr (d, q) ↦ inr (
                    d,
                    ground (arith, q),
                    confirmed_spent addr txid confirmations db d n h room q,
                  )
                ]
              ]
        ]
      where
        already :
            (info : AddressInfo)
            → find_info (entry.source_address) (list_addresses bolt db) ≡ some info
            → (state_eq (info.state) spent && bytes_eq (info.spend_txid) (entry.txid)) ≡ true
            → IsSpentBy (entry.source_address) (entry.txid) db db
        already info g s =
            let ((key, rec, stored, same), named) =
              find_info_ok (IsListed bolt db) (entry.source_address) (list_addresses bolt db) info
                (list_addresses-All bolt db) g in
            let (by, tx, is_spent) =
              spent_info (entry.source_address) (entry.txid) info rec same named s in
            record {
              key = key;
              rec = rec;
              found = stored;
              named = by;
              spends = tx;
              was = inr is_spent;
              stored = stored ∙ ap some (already_spent rec is_spent);
              others = λ k r other e. e;
            }
