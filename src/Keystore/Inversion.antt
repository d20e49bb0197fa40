-- ===== src/Keystore/Inversion.antt =====
-- What a transaction that succeeds has done, step by step.
use symbiont_wallet.Base.{
  ◌≡◌, refl, ◌⊎◌, inl, inr, Bool, false, some, Result, ok, err, arith, Option-cases,
}
use symbiont_wallet.Base.Bytes.{Bytes}
use symbiont_wallet.Keystore.Types.{AddressRecord, Error}
use symbiont_wallet.Keystore.Bolt.{Bolt, Entries, lookup, insert}
use symbiont_wallet.Keystore.Transaction.{Tx, ◌>>=◌, pure, fail_when, update}
use symbiont_wallet.Keystore.Store.{Db, find_address, find_record, put_record}
use symbiont_wallet.Keystore.Rows.{find_address-lookup}

module _ {S : Type 0} where
  bind_cases :
      {A B : Type 0} (m : Tx S A) (f : A → Tx S B) (s s'' : S) {b : B} (r : Result Error (A × S))
      → m s ≡ r
      → (m >>= f) s ≡ ok (b, s'')
      → (a : A) × (s' : S) × (m s ≡ ok (a, s')) × (f a s' ≡ ok (b, s''))
  unfolding ◌>>=◌
  bind_cases m f s s'' (ok (a, s')) e k = (a, s', e, rw (← k) (rw (e, ◌>>=◌)))
  bind_cases m f s s'' (err x) e k = ground arith

  -- A bind that succeeds: its two parts did, for a proof that goes on with them.
  pub after_bind {ℓ} :
      {A B : Type 0} {C : Type ℓ} (m : Tx S A) (f : A → Tx S B) (s s'' : S) {b : B}
      → (m >>= f) s ≡ ok (b, s'')
      → ((a : A) (s' : S) → m s ≡ ok (a, s') → f a s' ≡ ok (b, s'') → C)
      → C
  after_bind m f s s'' h k = let (a, s', e, e') = bind_cases m f s s'' (m s) refl h in k a s' e e'

  pub fail_when_ok :
      (bad : Bool) (e : Error) (s s' : S) {u : Unit {0}}
      → fail_when bad e s ≡ ok (u, s')
      → (bad ≡ false) × (s' ≡ s)
  unfolding fail_when
  fail_when_ok bad e s s' h = ground arith

  pub pure_ok : {A : Type 0} (a : A) (s s' : S) {b : A} → pure a s ≡ ok (b, s') → (b ≡ a) × (s' ≡ s)
  unfolding pure
  pure_ok a s s' h = ground arith

  -- `Update` either returns an error and leaves the database alone, or it commits the body.
  pub update_cases :
      {A : Type 0} (m : Tx S A) (s : S)
      → ((e : Error) × (m s ≡ err e) × (update m s ≡ (err e, s)))
        ⊎ ((a : A) × (s' : S) × (m s ≡ ok (a, s')) × (update m s ≡ (ok a, s')))
  unfolding update
  update_cases {A} m s = go (m s) refl
    where
      go :
          (r : Result Error (A × S))
          → m s ≡ r
          → ((e : Error) × (m s ≡ err e) × (update m s ≡ (err e, s)))
            ⊎ ((a : A) × (s' : S) × (m s ≡ ok (a, s')) × (update m s ≡ (ok a, s')))
      go (ok (a, s')) e = inr (a, s', e, rw (e, update))
      go (err x) e = inl (x, e, rw (e, update))

module _ (bolt : Bolt) where
  open bolt use {put, entries, entries_sorted, put-insert}

  abbrev pub rows : Db bolt → Entries AddressRecord
  rows db = entries db.addresses

  pub find_record_ok :
      (addr : Bytes) (db db' : Db bolt) {key : Bytes} {rec : AddressRecord}
      → find_record bolt addr db ≡ ok ((key, rec), db')
      → (db' ≡ db)
        × (find_address addr (rows db) ≡ some (key, rec))
        × (lookup key (rows db) ≡ some rec)
        × (rec.address ≡ addr)
  unfolding find_record
  find_record_ok addr db db' {key} {rec} h =
      ground (arith, find_address-lookup addr key rec (rows db) (entries_sorted db.addresses))

  pub put_record_ok :
      (key : Bytes) (rec : AddressRecord) (db db' : Db bolt) {u : Unit {0}}
      → put_record bolt key rec db ≡ ok (u, db')
      → (rows db' ≡ insert key rec (rows db))
        × (db'.meta ≡ db.meta)
        × (db'.transactions ≡ db.transactions)
        × (db'.pending_broadcasts ≡ db.pending_broadcasts)
  unfolding put_record
  put_record_ok key rec db db' h = elim (Option-cases (put db.addresses key rec)) [
    | inl e ↦ ground arith
    | inr (t, e) ↦ ground (arith, put-insert db.addresses key rec e)
  ]
