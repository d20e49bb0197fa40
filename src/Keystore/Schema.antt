-- ===== src/Keystore/Schema.antt =====
-- keystore.go: what generating addresses leaves of the schema version and of the stored keys.
use symbiont_wallet.Base.{
  ℕ, zero, suc, ◌+◌, ◌-◌, ◌%◌, ◌<◌, ◌≡◌, ◌⊎◌, refl, sym, ap, ◌∙◌, subst, Bool, false, inl, inr,
  Option, some, [], ok, Bool-cases, Option-cases, Result-cases, arith, if◌then◌else◌,
}
use symbiont_wallet.Base.Bytes.{Bytes, bytes_eq, bytes_eq_refl}
use symbiont_wallet.Base.Int64.{word}
use symbiont_wallet.Base.Words.{put_be}
use symbiont_wallet.Keystore.Types.{AddressRecord}
use symbiont_wallet.Keystore.Bolt.{Bolt, lookup, insert}
use symbiont_wallet.Keystore.Store.{Db, index_key}
use symbiont_wallet.Keystore.Generate.{
  next_index_key, Derived, new_record, increment_index, generate, generate_address, generate_loop,
  pre_generate, count_available_fresh, count_available,
}
use symbiont_wallet.Keystore.Rows.{lookup-insert}
use symbiont_wallet.Keystore.Inversion.{after_bind, pure_ok, rows, put_record_ok}
use symbiont_wallet.Keystore.Writes.{update_ok}
use symbiont_wallet.Keystore.Writes.Generated.{next_index_ok, derive_at_ok, generate_address_ok}
use symbiont_wallet.Keystore.Opening.{schema_version, schema_version_key}

module _ (bolt : Bolt) where
  open bolt use {get, put, entries, get-lookup, put-insert}

  -- The schema version in the database.
  abbrev pub IsFormatted : Db bolt → Type 0
  IsFormatted db = get (db.meta) schema_version_key ≡ some (put_be 8 schema_version)

  -- Every stored key satisfies `P`.
  abbrev pub HasBlobs {ℓ} : (Bytes → Type ℓ) → Db bolt → Type ℓ
  HasBlobs P db =
      (k : Bytes) (r : AddressRecord) → lookup k (rows bolt db) ≡ some r → P (r.enc_seed_blob)

  abbrev pub HasRecord : Db bolt → Type 0
  HasRecord db = (k : Bytes) × (r : AddressRecord) × (lookup k (rows bolt db) ≡ some r)

  keys_differ : bytes_eq schema_version_key next_index_key ≡ false
  unfolding bytes_eq
  keys_differ = refl

  increment_index-IsFormatted :
      (idx : ℕ) (db db' : Db bolt) {u : Unit {0}}
      → increment_index bolt idx db ≡ ok (u, db')
      → IsFormatted db
      → IsFormatted db'
  unfolding increment_index
  increment_index-IsFormatted idx db db' e h =
      elim (Option-cases (put (db.meta) next_index_key (put_be 8 ((idx + 1) % word)))) [
        | inl q ↦ absurd (ground arith)
        | inr (t, q) ↦
            let same : get (db'.meta) schema_version_key ≡ get t schema_version_key =
              ground arith in
            let kept : get t schema_version_key ≡ get (db.meta) schema_version_key =
              get-lookup t schema_version_key
              ∙ ap (lookup schema_version_key) (put-insert (db.meta) next_index_key _ q)
              ∙ lookup-insert schema_version_key next_index_key (put_be 8 ((idx + 1) % word))
                  (entries (db.meta))
              ∙ ap
                  (λ (b : Bool).
                    if b
                    then some (put_be 8 ((idx + 1) % word))
                    else lookup schema_version_key (entries (db.meta)))
                  keys_differ
              ∙ sym (get-lookup (db.meta) schema_version_key) in
            same ∙ kept ∙ h
      ]

  module _ (derive : Bytes → ℕ → Option Derived) (seed : Bytes) where
    generate_address-IsFormatted :
        (db db' : Db bolt) {addr : Bytes}
        → generate_address bolt derive (some seed) db ≡ (ok addr, db')
        → IsFormatted db
        → IsFormatted db'
    unfolding generate_address generate
    generate_address-IsFormatted db db' h f =
        after_bind _ _ db db' (update_ok _ db db' h) λ idx db1 e1 h1.
          after_bind _ _ db1 db' h1 λ d db2 e2 h2. after_bind _ _ db2 db' h2 λ w db3 e3 h3.
            after_bind _ _ db3 db' h3 λ w' db4 e4 h4.
              let same1 = next_index_ok bolt db db1 e1 in
              let (derived, same2) = derive_at_ok bolt derive seed idx db1 db2 e2 in
              let (wrote, meta, txs, pend) = put_record_ok bolt _ _ db2 db3 e3 in
              let (result, same5) = pure_ok _ db4 db' h4 in
              let same : db3.meta ≡ db.meta = meta ∙ ap (λ (x : Db bolt). x.meta) (same2 ∙ same1) in
              let f3 : IsFormatted db3 = ap (λ t. get t schema_version_key) same ∙ f in
              subst IsFormatted (sym same5) (increment_index-IsFormatted idx db3 db4 e4 f3)

  module _ {ℓ} (P : Bytes → Type ℓ) (derive : Bytes → ℕ → Option Derived) (seed : Bytes)
      (blobs : (idx : ℕ) (d : Derived) → derive seed idx ≡ some d → P (d.enc_seed)) where
    inserted-HasBlobs :
        (idx : ℕ) (d : Derived) (db db' : Db bolt)
        → derive seed idx ≡ some d
        → rows bolt db' ≡ insert (index_key idx) (new_record idx d) (rows bolt db)
        → HasBlobs P db
        → HasBlobs P db'
    inserted-HasBlobs idx d db db' derived wrote h k r e =
        let e' =
          sym (lookup-insert k (index_key idx) (new_record idx d) (rows bolt db))
          ∙ sym (ap (lookup k) wrote)
          ∙ e in
        elim (Bool-cases (bytes_eq k (index_key idx))) [
          | inl same ↦
              let is_new : new_record idx d ≡ r = ground arith in
              subst (λ (x : AddressRecord). P (x.enc_seed_blob)) is_new (blobs idx d derived)
          | inr other ↦ h k r (ground arith)
        ]

    generate_address-keeps :
        (db db' : Db bolt) {addr : Bytes}
        → generate_address bolt derive (some seed) db ≡ (ok addr, db')
        → IsFormatted db
        → HasBlobs P db
        → IsFormatted db' × HasBlobs P db' × HasRecord db'
    generate_address-keeps db db' e f h =
        let (idx, d, _, derived, _, wrote, _, _, _) =
          generate_address_ok bolt derive seed db db' e in
        (
          generate_address-IsFormatted derive seed db db' e f,
          inserted-HasBlobs idx d db db' derived wrote h,
          (
            index_key idx,
            new_record idx d,
            ap (lookup (index_key idx)) wrote
                ∙ lookup-insert (index_key idx) (index_key idx) (new_record idx d) (rows bolt db)
                ∙ ap
                    (λ (b : Bool).
                      if b then some (new_record idx d) else lookup (index_key idx) (rows bolt db))
                    (bytes_eq_refl (index_key idx)),
          ),
        )

    generate_loop-keeps :
        (n : ℕ) (db db' : Db bolt) {u : Unit {0}}
        → generate_loop bolt derive n (some seed) db ≡ (ok u, db')
        → IsFormatted db
        → HasBlobs P db
        → (0 < n) ⊎ HasRecord db
        → IsFormatted db' × HasBlobs P db' × HasRecord db'
    generate_loop-keeps zero db db' e f h r =
        let same : db ≡ db' = unfold generate_loop in ground (arith, e) in
        subst (λ x. IsFormatted x × HasBlobs P x × HasRecord x) same
          (f, h, elim r [ inl more ↦ absurd (omega (arith, more)) | inr stored ↦ stored ])
    generate_loop-keeps (suc n) db db' e f h r =
        let step = generate_address bolt derive (some seed) db in
        elim (Result-cases (step.0)) [
          | inr (bad, q) ↦ absurd (unfold generate_loop in ground (arith, e, q))
          | inl (addr, q) ↦
              let ran : step ≡ (ok addr, step.1) = ap (λ x. (x, step.1)) q in
              let (f', h', stored) = generate_address-keeps db (step.1) ran f h in
              generate_loop-keeps n (step.1) db' (unfold generate_loop in ground (arith, e, q)) f'
                h' (inr stored)
        ]

    -- Filling a pool of `n` in a database without addresses.
    pub pre_generate-keeps :
        (n : ℕ) (db db' : Db bolt) {u : Unit {0}}
        → pre_generate bolt derive n (some seed) db ≡ (ok u, db')
        → 0 < n
        → rows bolt db ≡ []
        → IsFormatted db
        → IsFormatted db' × HasBlobs P db' × HasRecord db'
    unfolding pre_generate
    pre_generate-keeps n db db' {u = u} e some_of blank f =
        let counted : n ≡ n - count_available_fresh bolt db =
          unfold count_available_fresh count_available in ground (arith, blank) in
        let at : generate_loop bolt derive n (some seed) db ≡ (ok u, db') =
          ap (λ m. generate_loop bolt derive m (some seed) db) counted ∙ e in
        generate_loop-keeps n db db' at f none_yet (inl some_of)
      where
        none_yet : HasBlobs P db
        none_yet k r q = absurd (unfold lookup in ground (arith, blank, q))
