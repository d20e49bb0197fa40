-- ===== src/Wallet/Created.antt =====
-- wallet.go: a wallet that `CreateNew` made is one that `OpenExisting` accepts, and what a refused
-- opening leaves.
use symbiont_wallet.Base.{
  ℕ, ◌<◌, ◌≡◌, ◌⊎◌, refl, sym, ap, ◌∙◌, subst, Bool, true, inl, inr, Option, none, some, [], ◌∷◌,
  length, ◌==◌, Result, ok, err, Bool-cases, Option-cases, Result-cases, arith, if◌then◌else◌,
}
use symbiont_wallet.Base.Bytes.{Bytes, bytes_eq_refl}
use symbiont_wallet.Base.Words.{put_be, length-put_be, be_value-put_be}
use symbiont_wallet.Keystore.Types.{AddressRecord}
use symbiont_wallet.Keystore.Bolt.{Bolt, Entries, lookup}
use symbiont_wallet.Keystore.Store.{Db}
use symbiont_wallet.Keystore.Generate.{Derived, pre_generate}
use symbiont_wallet.Keystore.Queries.{decrypt_seed}
use symbiont_wallet.Keystore.Rows.{lookup-insert}
use symbiont_wallet.Keystore.Inversion.{rows}
use symbiont_wallet.Keystore.Opening.{
  schema_version, schema_version_key, enc_key_info, first_blob, is_schema, Buckets, buckets_of,
  create_buckets, check_schema, KeyIndex, open_keystore, validate_existing,
}
use symbiont_wallet.Keystore.Schema.{IsFormatted, HasBlobs, HasRecord, pre_generate-keeps}
use symbiont_wallet.Wallet.Types.{Error, bad_seed_length}
use symbiont_wallet.Wallet.Observe.{pool_size}
use symbiont_wallet.Wallet.Files.{
  take_seed, File, absent, irregular, unreadable, empty_file, database, no_buckets, World,
  open_wallet, create_at, create_new, open_at, open_existing, validation_error,
}

module _ (bolt : Bolt) where
  open bolt use {get, put, entries, empty, get-lookup, put-insert, entries-empty}

  -- The first stored key of a database whose keys are not empty.
  first_blob_ok {ℓ} :
      (P : Bytes → Type ℓ) (m : Entries AddressRecord)
      → ((b : Bytes) → P b → 0 < length b)
      → ((k : Bytes) (r : AddressRecord) → lookup k m ≡ some r → P (r.enc_seed_blob))
      → (k : Bytes) × (r : AddressRecord) × (lookup k m ≡ some r)
      → P (first_blob m)
  first_blob_ok P [] full h (k, r, e) = absurd (unfold lookup in ground arith)
  first_blob_ok P ((j, r) ∷ m) full h stored =
      let head : lookup j ((j, r) ∷ m) ≡ some r =
        unfold lookup in ground (arith, bytes_eq_refl j) in
      let p = h j r head in
      let same : r.enc_seed_blob ≡ first_blob ((j, r) ∷ m) =
        unfold first_blob in ground (arith, full (r.enc_seed_blob) p) in
      subst P same p

  schema_written : is_schema (put_be 8 schema_version) ≡ true
  unfolding is_schema
  schema_written = ground (arith, length-put_be 8 schema_version, be_value-put_be 8 schema_version)

  -- `Open` on a new file.
  open_keystore_new :
      (opens : Bool) (hkdf : Bytes → Bytes → ℕ → Option Bytes) (seed : Bytes)
      (index : KeyIndex bolt) (file : Buckets bolt)
      → open_keystore bolt opens hkdf seed (no_buckets bolt) ≡ (ok index, file)
      → (opens ≡ true)
        × (length seed ≡ 32)
        × (hkdf seed enc_key_info 32 ≡ some (index.enc_key))
        × (rows bolt (index.db) ≡ [])
        × IsFormatted bolt (index.db)
  unfolding open_keystore create_buckets check_schema
  open_keystore_new opens hkdf seed index file h =
      let no_version : get (empty {V = Bytes}) schema_version_key ≡ none =
        get-lookup empty schema_version_key
        ∙ ap (lookup schema_version_key) (entries-empty Bytes)
        ∙ (unfold lookup in refl) in
      let blank = entries-empty AddressRecord in
      elim (Option-cases (put (empty {V = Bytes}) schema_version_key (put_be 8 schema_version))) [
        | inl e ↦ absurd (ground (arith, no_version, blank))
        | inr (t, e) ↦ elim (Option-cases (hkdf seed enc_key_info 32)) [
          | inl k ↦ absurd (ground (arith, no_version, blank))
          | inr (key, k) ↦
              let stored : get t schema_version_key ≡ some (put_be 8 schema_version) =
                get-lookup t schema_version_key
                ∙ ap (lookup schema_version_key) (put-insert empty schema_version_key _ e)
                ∙ lookup-insert schema_version_key schema_version_key (put_be 8 schema_version)
                    (entries empty)
                ∙ ap
                    (λ (b : Bool).
                      if b
                      then some (put_be 8 schema_version)
                      else lookup schema_version_key (entries (empty {V = Bytes})))
                    (bytes_eq_refl schema_version_key) in
              let opened : opens ≡ true = ground (arith, no_version, blank) in
              let sized : length seed ≡ 32 = ground (arith, no_version, blank) in
              let made : record {
                db = record (create_buckets bolt (no_buckets bolt)) { meta = t };
                master_seed = seed;
                enc_key = key;
              }
                  ≡ index =
                ground (arith, no_version, blank, opened, sized) in
              let keyed : key ≡ index.enc_key = ap (λ (x : KeyIndex bolt). x.enc_key) made in
              let placed : rows bolt (index.db) ≡ entries (empty {V = AddressRecord}) =
                ap (λ (x : KeyIndex bolt). rows bolt (x.db)) (sym made) in
              let versioned : get (index.db.meta) schema_version_key ≡ get t schema_version_key =
                ap (λ (x : KeyIndex bolt). get (x.db.meta) schema_version_key) (sym made) in
              (opened, sized, k ∙ ap some keyed, placed ∙ blank, versioned ∙ stored)
        ]
      ]

  module _ (world : World bolt) where
    open world use {makes_directory, claims, opens, hkdf, gcm_open, derive}

    -- An encrypted key that is not empty and opens under `key`.
    abbrev pub Unlocks : Bytes → Bytes → Type 0
    Unlocks key blob =
        (0 < length blob) × (plain : Bytes) × (decrypt_seed (gcm_open key) blob ≡ ok plain)

    -- What derivation encrypts under the key of the seed, that key opens.
    abbrev pub IsUnlocking : Bytes → Type 0
    IsUnlocking seed =
        (key : Bytes)
        → hkdf seed enc_key_info 32 ≡ some key
        → (idx : ℕ) (d : Derived) → derive key seed idx ≡ some d
        → Unlocks key (d.enc_seed)

    -- A formatted database with a stored key validates.
    validates :
        (seed key : Bytes) (db : Db bolt)
        → opens ≡ true
        → length seed ≡ 32
        → hkdf seed enc_key_info 32 ≡ some key
        → IsFormatted bolt db
        → HasBlobs bolt (Unlocks key) db
        → HasRecord bolt db
        → validate_existing bolt opens hkdf gcm_open seed (buckets_of bolt db) ≡ ok tt
    unfolding validate_existing
    validates seed key db on sized keyed formatted blobs stored =
        let (full, plain, unlocked) =
          first_blob_ok (Unlocks key) (rows bolt db) (λ b k. k.0) blobs stored in
        ground (arith, on, sized, keyed, formatted, schema_written, full, unlocked)

    -- `openWallet` on a new file.
    open_wallet_new :
        (seed : Bytes) (w : KeyIndex bolt) (b : Buckets bolt)
        → IsUnlocking seed
        → open_wallet bolt world seed (no_buckets bolt) ≡ (ok w, b)
        → validate_existing bolt opens hkdf gcm_open seed b ≡ ok tt
    unfolding open_wallet
    open_wallet_new seed w b unlocking h =
        let opening = open_keystore bolt opens hkdf seed (no_buckets bolt) in
        elim (Result-cases (opening.0)) [
          | inr (bad, e) ↦ absurd (ground (arith, e))
          | inl (index, e) ↦
              let ran : opening ≡ (ok index, opening.1) = ap (λ x. (x, opening.1)) e in
              let (on, sized, keyed, blank, formatted) =
                open_keystore_new opens hkdf seed index (opening.1) ran in
              let filling =
                pre_generate bolt (derive (index.enc_key)) pool_size (some seed) (index.db) in
              elim (Result-cases (filling.0)) [
                | inr (bad, f) ↦ absurd (ground (arith, e, f))
                | inl (u, f) ↦
                    let filled : filling ≡ (ok u, filling.1) = ap (λ x. (x, filling.1)) f in
                    let (formatted', blobs, stored) =
                      pre_generate-keeps bolt (Unlocks (index.enc_key)) (derive (index.enc_key))
                        seed (unlocking (index.enc_key) keyed) pool_size (index.db) (filling.1)
                        filled (omega arith) blank formatted in
                    let same : buckets_of bolt (filling.1) ≡ b = ground (arith, e, f) in
                    subst (λ x. validate_existing bolt opens hkdf gcm_open seed x ≡ ok tt) same
                      (validates seed (index.enc_key) (filling.1) on sized keyed formatted' blobs
                        stored)
              ]
        ]

    -- What a creation that succeeds leaves.
    abbrev pub Creates : Bytes → File bolt → File bolt → Type 0
    Creates seed file file' =
        (file ≡ absent)
        × ((b : Buckets bolt) × (file' ≡ database b)
            × (validate_existing bolt opens hkdf gcm_open seed b ≡ ok tt))

    create_at-Creates :
        (seed : Bytes) (file file' : File bolt) (w : KeyIndex bolt)
        → IsUnlocking seed
        → create_at bolt world seed file ≡ (ok w, file')
        → Creates seed file file'
    create_at-Creates seed irregular file' w k h = absurd (unfold create_at in ground arith)
    create_at-Creates seed unreadable file' w k h = absurd (unfold create_at in ground arith)
    create_at-Creates seed empty_file file' w k h = absurd (unfold create_at in ground arith)
    create_at-Creates seed (database b) file' w k h = absurd (unfold create_at in ground arith)
    create_at-Creates seed absent file' w k h =
        let opened = open_wallet bolt world seed (no_buckets bolt) in
        elim (Bool-cases claims) [
          | inr c ↦ absurd (unfold create_at in ground (arith, c))
          | inl c ↦ elim (Result-cases (opened.0)) [
            | inr (bad, e) ↦ absurd (unfold create_at in ground (arith, c, e))
            | inl (w', e) ↦
                let ran : opened ≡ (ok w', opened.1) = ap (λ x. (x, opened.1)) e in
                let left : file' ≡ database (opened.1) =
                  unfold create_at in ground (arith, c, ran) in
                (refl, (opened.1, left, open_wallet_new seed w' (opened.1) k ran))
          ]
        ]

    -- If what derivation encrypts can be decrypted with the key of the same seed, then a wallet that
    -- `CreateNew` made, where nothing stood before, passes the validation of `OpenExisting` with its
    -- seed.
    pub validate_existing-create_new :
        (seed : Bytes) (file file' : File bolt) (w : KeyIndex bolt)
        → IsUnlocking seed
        → create_new bolt world seed file ≡ (ok w, file')
        → Creates seed file file'
    validate_existing-create_new seed file file' w unlocking h =
        elim (Bool-cases (length seed == 32)) [
          | inr n ↦ absurd (unfold create_new take_seed in ground (arith, n))
          | inl n ↦ elim (Bool-cases makes_directory) [
            | inr d ↦ absurd (unfold create_new take_seed in ground (arith, n, d))
            | inl d ↦
                create_at-Creates seed file file' w unlocking
                  (unfold create_new take_seed in ground (arith, n, d))
          ]
        ]

    -- What an opening may do to the file at its path.
    abbrev pub IsGuarded : Bytes → File bolt → Result Error (KeyIndex bolt) × File bolt → Type 0
    IsGuarded seed file r =
        ((r.1 ≡ file) × ((e : Error) × (r.0 ≡ err e)))
        ⊎ ((b : Buckets bolt) × (file ≡ database b)
            × (validate_existing bolt opens hkdf gcm_open seed b ≡ ok tt)
            × (r ≡ (
              (open_wallet bolt world seed b).0,
              database ((open_wallet bolt world seed b).1),
            )))

    open_at-IsGuarded :
        (seed : Bytes) (file : File bolt) → IsGuarded seed file (open_at bolt world seed file)
    unfolding open_at
    open_at-IsGuarded seed absent = inl (refl, (_, refl))
    open_at-IsGuarded seed irregular = inl (refl, (_, refl))
    open_at-IsGuarded seed unreadable = inl (refl, (_, refl))
    open_at-IsGuarded seed empty_file = inl (refl, (_, refl))
    open_at-IsGuarded seed (database b) =
        elim (Result-cases (validate_existing bolt opens hkdf gcm_open seed b)) [
          | inr (bad, e) ↦ inl (ground arith, (validation_error bolt world bad, ground arith))
          | inl (u, e) ↦ inr (b, refl, e, ground arith)
        ]

    -- `OpenExisting` returns an error and leaves the file alone, or the path has a database that
    -- passed the validation with this seed, and then it does what `openWallet` does.
    pub open_existing-IsGuarded :
        (seed : Bytes) (file : File bolt) → IsGuarded seed file (open_existing bolt world seed file)
    open_existing-IsGuarded seed file = elim (Bool-cases (length seed == 32)) [
      | inr n ↦
          let same : (err bad_seed_length, file) ≡ open_existing bolt world seed file =
            unfold open_existing take_seed in ground (arith, n) in
          subst (IsGuarded seed file) same (inl (refl, (bad_seed_length, refl)))
      | inl n ↦
          let same : open_at bolt world seed file ≡ open_existing bolt world seed file =
            unfold open_existing take_seed in ground (arith, n) in
          subst (IsGuarded seed file) same (open_at-IsGuarded seed file)
    ]
