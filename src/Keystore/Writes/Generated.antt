-- ===== src/Keystore/Writes/Generated.antt =====
-- keystore.go: what `GenerateAddress` writes, and the index counter.
use symbiont_wallet.Base.{
  ℕ, ◌+◌, ◌%◌, ◌≡◌, refl, ap, ◌∙◌, Option, some, ok, arith, Option-cases, inl, inr,
}
use symbiont_wallet.Base.Bytes.{Bytes, bytes_eq_refl}
use symbiont_wallet.Base.Int64.{word}
use symbiont_wallet.Base.Words.{put_be, length-put_be, be_value-put_be}
use symbiont_wallet.Keystore.Types.{AddressRecord}
use symbiont_wallet.Keystore.Bolt.{Bolt, insert}
use symbiont_wallet.Keystore.Store.{Db, index_key}
use symbiont_wallet.Keystore.Generate.{
  next_index_key, Derived, new_record, next_index, increment_index, derive_at, generate,
  generate_address,
}
use symbiont_wallet.Keystore.Rows.{lookup-insert}
use symbiont_wallet.Keystore.Inversion.{after_bind, pure_ok, rows, put_record_ok}
use symbiont_wallet.Keystore.Writes.{update_ok}

module _ (bolt : Bolt) where
  open bolt use {get, put, entries, get-lookup, put-insert}

  -- `nextIndex` reads the counter `n`.
  abbrev pub CounterIs : Db bolt → ℕ → Type 0
  CounterIs db n = next_index bolt db ≡ ok (n, db)

  -- The counter depends on the meta bucket alone.
  pub CounterIs-meta :
      (db db' : Db bolt) (n : ℕ) → db'.meta ≡ db.meta → CounterIs db n → CounterIs db' n
  unfolding next_index
  CounterIs-meta db db' n same h = elim (Option-cases (get db.meta next_index_key)) [
    | inl e ↦ ground arith
    | inr (v, e) ↦ ground arith
  ]

  pub next_index_ok : (db db' : Db bolt) {n : ℕ} → next_index bolt db ≡ ok (n, db') → db' ≡ db
  unfolding next_index
  next_index_ok db db' h = ground arith

  increment_index_ok :
      (idx : ℕ) (db db' : Db bolt) {u : Unit {0}}
      → increment_index bolt idx db ≡ ok (u, db')
      → CounterIs db' ((idx + 1) % word)
        × (db'.addresses ≡ db.addresses)
        × (db'.transactions ≡ db.transactions)
        × (db'.pending_broadcasts ≡ db.pending_broadcasts)
  unfolding increment_index next_index
  increment_index_ok idx db db' h =
      elim (Option-cases (put db.meta next_index_key (put_be 8 ((idx + 1) % word)))) [
        | inl e ↦ absurd (ground arith)
        | inr (t, e) ↦ rw (stored t e) (counter t e, refl, refl, refl)
      ]
    where
      stored :
          (t : bolt.Bucket Bytes)
          → put db.meta next_index_key (put_be 8 ((idx + 1) % word)) ≡ some t
          → db' ≡ record db { meta = t }
      stored t e = ground arith

      reads :
          (t : bolt.Bucket Bytes)
          → put db.meta next_index_key (put_be 8 ((idx + 1) % word)) ≡ some t
          → get t next_index_key ≡ some (put_be 8 ((idx + 1) % word))
      reads t e =
          get-lookup t next_index_key
          ∙ rw (put-insert db.meta next_index_key _ e)
              (rw lookup-insert (rw (bytes_eq_refl next_index_key)))

      counter :
          (t : bolt.Bucket Bytes)
          → put db.meta next_index_key (put_be 8 ((idx + 1) % word)) ≡ some t
          → CounterIs (record db { meta = t }) ((idx + 1) % word)
      counter t e = ground (
        arith,
        reads t e,
        length-put_be 8 ((idx + 1) % word),
        be_value-put_be 8 ((idx + 1) % word),
      )

  module _ (derive : Bytes → ℕ → Option Derived) where
    pub derive_at_ok :
        (seed : Bytes) (idx : ℕ) (db db' : Db bolt) {d : Derived}
        → derive_at bolt derive seed idx db ≡ ok (d, db')
        → (derive seed idx ≡ some d) × (db' ≡ db)
    derive_at_ok seed idx db db' h = ground arith

    -- `GenerateAddress` succeeds with the derived address: its record is FRESH and stands at the
    -- key of the counter, which is one further afterwards.
    pub generate_address_ok :
        (seed : Bytes) (db db' : Db bolt) {addr : Bytes}
        → generate_address bolt derive (some seed) db ≡ (ok addr, db')
        → (idx : ℕ) × (d : Derived) × CounterIs db idx
          × (derive seed idx ≡ some d)
          × (addr ≡ d.address)
          × (rows bolt db' ≡ insert (index_key idx) (new_record idx d) (rows bolt db))
          × CounterIs db' ((idx + 1) % word)
          × (db'.transactions ≡ db.transactions)
          × (db'.pending_broadcasts ≡ db.pending_broadcasts)
    unfolding generate_address generate
    generate_address_ok seed db db' h =
        after_bind _ _ db db' (update_ok _ db db' h) λ idx db1 e1 h1.
          after_bind _ _ db1 db' h1 λ d db2 e2 h2. after_bind _ _ db2 db' h2 λ w db3 e3 h3.
            after_bind _ _ db3 db' h3 λ w' db4 e4 h4.
              let same1 = next_index_ok db db1 e1 in
              let (derived, same2) = derive_at_ok seed idx db1 db2 e2 in
              let (wrote, meta, txs, pend) =
                rw (same2 ∙ same1) at (put_record_ok bolt _ _ db2 db3 e3) in
              let (counter, addresses, txs', pend') = increment_index_ok idx db3 db4 e4 in
              let (result, same5) = pure_ok _ db4 db' h4 in
              rw same5 (
                idx,
                d,
                rw same1 at e1,
                derived,
                result,
                ap (λ (t : bolt.Bucket AddressRecord). entries t) addresses ∙ wrote,
                counter,
                txs' ∙ txs,
                pend' ∙ pend,
              )
