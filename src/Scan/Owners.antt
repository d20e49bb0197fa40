-- ===== src/Scan/Owners.antt =====
-- balance.go: what the tables hold once every address is entered.
use symbiont_wallet.Base.{
  ◌≡◌, refl, ◌⊎◌, inl, inr, true, some, List, [], ◌∷◌, All, ok, Result-cases, arith,
}
use symbiont_wallet.Base.Bytes.{Bytes, bytes_eq_iff}
use symbiont_wallet.Base.Keys.{has_key}
use symbiont_wallet.Base.Maps.{Map, lookup, insert, lookup-insert}
use symbiont_wallet.Address.Format.{Convert}
use symbiont_wallet.Scan.Index.{script_hex, index_addrs}

-- In the table the script `s`, and no other, belongs to `a`.
pub record Owns (a s : Bytes) (scripts : Map Bytes) : Type 0 where
  pub found : lookup s scripts ≡ some a
  pub alone : (t : Bytes) → lookup t scripts ≡ some a → t ≡ s

module _ (convert_bits : Convert) where
  -- Among `addrs` only `a` has the script `s`.
  abbrev pub IsOnlyOwner : Bytes → Bytes → List Bytes → Type 0
  IsOnlyOwner a s addrs = All (λ b. script_hex convert_bits b ≡ ok s → b ≡ a) addrs

  module _ {V : Type 0} (start : V) (a s : Bytes) where
    index_addrs_found :
        (addrs : List Bytes) (scripts scripts' : Map Bytes) (entries entries' : Map V)
        → IsOnlyOwner a s addrs
        → script_hex convert_bits a ≡ ok s
        → (lookup s scripts ≡ some a) ⊎ (has_key a addrs ≡ true)
        → index_addrs convert_bits start addrs (scripts, entries) ≡ ok (scripts', entries')
        → lookup s scripts' ≡ some a
    unfolding index_addrs has_key
    index_addrs_found [] scripts scripts' entries entries' own e (inl h) r = ground arith
    index_addrs_found [] scripts scripts' entries entries' own e (inr h) r = cc
    index_addrs_found (b ∷ bs) scripts scripts' entries entries' (own, owns) e h r =
        elim (Result-cases (script_hex convert_bits b)) [
          | inr (bad, eb) ↦ absurd (ground arith)
          | inl (t, et) ↦
              index_addrs_found bs (insert t b scripts) scripts' (insert b start entries) entries'
                owns e
                (ground
                  (arith, own, lookup-insert s t b scripts, bytes_eq_iff s t, bytes_eq_iff a b))
                (ground arith)
        ]

    index_addrs_alone :
        (addrs : List Bytes) (scripts scripts' : Map Bytes) (entries entries' : Map V)
        → script_hex convert_bits a ≡ ok s
        → ((t : Bytes) → lookup t scripts ≡ some a → t ≡ s)
        → index_addrs convert_bits start addrs (scripts, entries) ≡ ok (scripts', entries')
        → (t : Bytes) → lookup t scripts' ≡ some a
        → t ≡ s
    unfolding index_addrs
    index_addrs_alone [] scripts scripts' entries entries' e h r = λ t k. h t (ground arith)
    index_addrs_alone (b ∷ bs) scripts scripts' entries entries' e h r =
        elim (Result-cases (script_hex convert_bits b)) [
          | inr (bad, eb) ↦ absurd (ground arith)
          | inl (u, eu) ↦
              index_addrs_alone bs (insert u b scripts) scripts' (insert b start entries) entries' e
                (λ t k. ground (arith, h t, lookup-insert t u b scripts, bytes_eq_iff t u))
                (ground arith)
        ]

    index_addrs_started :
        (addrs : List Bytes) (scripts scripts' : Map Bytes) (entries entries' : Map V)
        → (lookup a entries ≡ some start) ⊎ (has_key a addrs ≡ true)
        → index_addrs convert_bits start addrs (scripts, entries) ≡ ok (scripts', entries')
        → lookup a entries' ≡ some start
    unfolding index_addrs has_key
    index_addrs_started [] scripts scripts' entries entries' (inl h) r = ground arith
    index_addrs_started [] scripts scripts' entries entries' (inr h) r = cc
    index_addrs_started (b ∷ bs) scripts scripts' entries entries' h r =
        elim (Result-cases (script_hex convert_bits b)) [
          | inr (bad, eb) ↦ absurd (ground arith)
          | inl (t, et) ↦
              index_addrs_started bs (insert t b scripts) scripts' (insert b start entries) entries'
                (ground (arith, lookup-insert a b start entries, bytes_eq_iff a b)) (ground arith)
        ]

    -- The tables, for an address of the list.
    pub index_addrs_ok :
        (addrs : List Bytes) (scripts : Map Bytes) (entries : Map V)
        → has_key a addrs ≡ true
        → IsOnlyOwner a s addrs
        → script_hex convert_bits a ≡ ok s
        → index_addrs convert_bits start addrs ([], []) ≡ ok (scripts, entries)
        → Owns a s scripts × (lookup a entries ≡ some start)
    unfolding lookup
    index_addrs_ok addrs scripts entries h own e r = (
      record {
        found = index_addrs_found addrs [] scripts [] entries own e (inr h) r;
        alone = index_addrs_alone addrs [] scripts [] entries e (λ t k. cc) r;
      },
      index_addrs_started addrs [] scripts [] entries (inr h) r,
    )

  -- With addresses that all decode, the tables are filled.
  abbrev pub HasScript : Bytes → Type 0
  HasScript b = (t : Bytes) × (script_hex convert_bits b ≡ ok t)

  pub index_addrs_succeeds :
      {V : Type 0} (start : V) (addrs : List Bytes) (scripts : Map Bytes) (entries : Map V)
      → All HasScript addrs
      → (tables : Map Bytes × Map V) × (index_addrs convert_bits start addrs (scripts, entries)
          ≡ ok tables)
  unfolding index_addrs
  index_addrs_succeeds start [] scripts entries h = ((scripts, entries), refl)
  index_addrs_succeeds start (b ∷ bs) scripts entries ((t, e), hs) =
      rw e (index_addrs_succeeds start bs (insert t b scripts) (insert b start entries) hs)
