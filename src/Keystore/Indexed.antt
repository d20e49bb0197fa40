-- ===== src/Keystore/Indexed.antt =====
-- The invariant of the database: the counter lies above every stored index, a record stands at the
-- key of its index, and every record is sound. `GenerateAddress` therefore writes to a free key.
use symbiont_wallet.Base.{
  ℕ, zero, suc, ◌+◌, ◌-◌, ◌%◌, ◌≤◌, ◌<◌, ◌≡◌, ◌⊎◌, sym, ap, ◌∙◌, subst, inl, inr, true, false,
  Option, none, some, arith, Bool-cases, Option-cases, Result-cases, if◌then◌else◌,
}
use symbiont_wallet.Base.Bytes.{Bytes, bytes_eq, bytes_eq_iff}
use symbiont_wallet.Base.Int64.{word}
use symbiont_wallet.Base.Words.{put_be-injective}
use symbiont_wallet.Keystore.Types.{AddressRecord}
use symbiont_wallet.Keystore.Bolt.{Bolt, lookup, insert}
use symbiont_wallet.Keystore.Store.{Db, index_key}
use symbiont_wallet.Keystore.Generate.{
  Derived, new_record, generate_address, generate_loop, pre_generate, count_available_fresh,
}
use symbiont_wallet.Keystore.Rows.{lookup-insert}
use symbiont_wallet.Keystore.Inversion.{rows}
use symbiont_wallet.Keystore.Steps.{
  Evolves-back, Persists, Persists-trans, Persists-insert_new, here,
}
use symbiont_wallet.Keystore.Life.{IsSound, Reach-IsSound, Reach-OneWay}
use symbiont_wallet.Keystore.Evolution.{DbEvolves, update_rule}
use symbiont_wallet.Keystore.Writes.Generated.{CounterIs, CounterIs-meta, generate_address_ok}

-- A record below the counter `n`, at its key.
abbrev pub IsPlaced : ℕ → Bytes → AddressRecord → Type 0
IsPlaced n k r = (k ≡ index_key r.index) × (r.index < n) × IsSound r

module _ (bolt : Bolt) where
  pub record IsIndexed (db : Db bolt) (n : ℕ) : Type 0 where
    pub counter : CounterIs bolt db n
    pub placed : (k : Bytes) (r : AddressRecord) → lookup k (rows bolt db) ≡ some r → IsPlaced n k r

  pub DbEvolves-IsIndexed :
      (db db' : Db bolt) (n : ℕ) → DbEvolves bolt db db' → IsIndexed db n → IsIndexed db' n
  DbEvolves-IsIndexed db db' n (f, meta) h = record {
    counter = CounterIs-meta bolt db db' n meta h.counter;
    placed = λ k r' e.
        let (r, was, p) = Evolves-back _ _ k r' f e in
        let (at, below, sound) = h.placed k r was in
        let one = Reach-OneWay p in
        (
          at ∙ ap index_key (sym one.index_kept),
          subst (λ (i : ℕ). i < n) (sym one.index_kept) below,
          Reach-IsSound p sound,
        );
  }

  pub index_key_free :
      (db : Db bolt) (n : ℕ)
      → IsIndexed db n
      → n < word
      → lookup (index_key n) (rows bolt db) ≡ none
  index_key_free db n h room = elim (Option-cases (lookup (index_key n) (rows bolt db))) [
    | inl e ↦ e
    | inr (r, e) ↦
        let (at, below, sound) = h.placed (index_key n) r e in
        absurd (omega (arith, same r.index at below))
  ]
    where
      same : (j : ℕ) → index_key n ≡ index_key j → j < n → n ≡ j
      same j at below = unfold index_key in put_be-injective 8 n j room (omega arith) at

  pub CounterIs-unique :
      (db : Db bolt) (n m : ℕ) → CounterIs bolt db n → CounterIs bolt db m → n ≡ m
  CounterIs-unique db n m h k = ground arith

  -- The database `s` comes from `db`, whose counter was `n`, with at most `b` addresses more: the
  -- counter never falls, and every stored record is still there.
  pub record GrewBy (db : Db bolt) (n b : ℕ) (s : Db bolt) : Type 0 where
    pub count : ℕ
    pub rises : n ≤ count
    pub bounded : count ≤ n + b
    pub indexed : IsIndexed s count
    pub persists : Persists (rows bolt db) (rows bolt s)

  pub GrewBy-same :
      (db s : Db bolt) (n b : ℕ)
      → IsIndexed s n
      → Persists (rows bolt db) (rows bolt s)
      → GrewBy db n b s
  GrewBy-same db s n b h p = record {
    count = n;
    rises = omega arith;
    bounded = omega arith;
    indexed = h;
    persists = p;
  }

  pub GrewBy-refl : (db : Db bolt) (n b : ℕ) → IsIndexed db n → GrewBy db n b db
  GrewBy-refl db n b h = GrewBy-same db db n b h (λ k r e. (r, e, here))

  pub GrewBy-trans :
      (db s t : Db bolt) (n a b c : ℕ)
      → b + c ≤ a
      → (g : GrewBy db n b s) → GrewBy s g.count c t
      → GrewBy db n a t
  GrewBy-trans db s t n a b c le g g' = record {
    count = g'.count;
    rises = omega arith;
    bounded = omega arith;
    indexed = g'.indexed;
    persists = Persists-trans _ _ _ g.persists g'.persists;
  }

  pub new_record-IsSound : (n : ℕ) (d : Derived) → IsSound (new_record n d)
  new_record-IsSound n d = ground arith

  inserted-IsIndexed :
      (db s : Db bolt) (n : ℕ) (d : Derived)
      → IsIndexed db n
      → n + 1 < word
      → rows bolt s ≡ insert (index_key n) (new_record n d) (rows bolt db)
      → CounterIs bolt s ((n + 1) % word)
      → IsIndexed s (n + 1)
  inserted-IsIndexed db s n d h room wrote counter = record {
    counter = subst (CounterIs bolt s) (omega arith) counter;
    placed =
        λ k r e. at k r (Bool-cases (bytes_eq k (index_key n))) (rw (wrote, lookup-insert) at e);
  }
    where
      at :
          (k : Bytes) (r : AddressRecord)
          → (bytes_eq k (index_key n) ≡ true) ⊎ (bytes_eq k (index_key n) ≡ false)
          → (if bytes_eq k (index_key n) then some (new_record n d) else lookup k (rows bolt db))
            ≡ some r
          → IsPlaced (n + 1) k r
      at k r (inl same) e =
          let is_new : r ≡ new_record n d = ground arith in
          rw is_new ((bytes_eq_iff k (index_key n)).0 same, omega arith, new_record-IsSound n d)
      at k r (inr other) e =
          let (place, below, sound) = h.placed k r (rw other at e) in (place, omega arith, sound)

  module _ (derive : Bytes → ℕ → Option Derived) where
    pub generate_address-GrewBy :
        (seed : Option Bytes) (db : Db bolt) (n : ℕ)
        → IsIndexed db n
        → n + 1 < word
        → GrewBy db n 1 (generate_address bolt derive seed db).1
    unfolding generate_address
    generate_address-GrewBy none db n h room = GrewBy-refl db n 1 h
    generate_address-GrewBy (some seed) db n h room =
        update_rule (GrewBy db n 1) _ db (GrewBy-refl db n 1 h) λ addr s e.
          let (idx, d, counter, derived, named, wrote, counter', txs, pend) =
            generate_address_ok bolt derive seed db s e in
          let same = CounterIs-unique db idx n counter h.counter in
          let wrote' = rw same at wrote in
          record {
            count = n + 1;
            rises = omega arith;
            bounded = omega arith;
            indexed = inserted-IsIndexed db s n d h room wrote' (rw same at counter');
            persists = rw wrote' (
                Persists-insert_new (index_key n) (new_record n d) _
                  (index_key_free db n h (omega arith)));
          }

    generate_loop-GrewBy :
        (k : ℕ) (seed : Option Bytes) (db : Db bolt) (n : ℕ)
        → IsIndexed db n
        → n + k < word
        → GrewBy db n k (generate_loop bolt derive k seed db).1
    unfolding generate_loop
    generate_loop-GrewBy zero seed db n h room = GrewBy-refl db n 0 h
    generate_loop-GrewBy (suc k) seed db n h room =
        let first = generate_address-GrewBy seed db n h (omega arith) in
        elim (Result-cases (generate_address bolt derive seed db).0) [
          | inl (addr, e) ↦
              rw (e, generate_loop)
                (GrewBy-trans db _ _ n (suc k) 1 k (omega arith) first (
                  generate_loop-GrewBy k seed _ first.count first.indexed
                    (omega (arith, first.bounded))))
          | inr (x, e) ↦
              rw (e, generate_loop)
                (GrewBy-trans db _ _ n (suc k) 1 0 (omega arith) first
                  (GrewBy-refl _ first.count 0 first.indexed))
        ]

    pub pre_generate-GrewBy :
        (k : ℕ) (seed : Option Bytes) (db : Db bolt) (n : ℕ)
        → IsIndexed db n
        → n + k < word
        → GrewBy db n k (pre_generate bolt derive k seed db).1
    unfolding pre_generate
    pre_generate-GrewBy k seed db n h room =
        let needed = k - count_available_fresh bolt db in
        let g = generate_loop-GrewBy needed seed db n h (omega arith) in
        GrewBy-trans db _ _ n k needed 0 (omega arith) g (GrewBy-refl _ g.count 0 g.indexed)
