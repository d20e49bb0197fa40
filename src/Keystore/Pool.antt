-- ===== src/Keystore/Pool.antt =====
-- keystore.go: what `PreGenerate` promises of the pool of unused addresses.
use symbiont_wallet.Base.{
  ℕ, zero, suc, ◌+◌, ◌-◌, ◌<◌, ◌≡◌, ◌∙◌, ap, subst, inl, inr, Option, none, some, [], ◌∷◌, ok,
  Result-cases, arith,
}
use symbiont_wallet.Base.Bytes.{Bytes}
use symbiont_wallet.Base.Int64.{word}
use symbiont_wallet.Keystore.Types.{AddressRecord}
use symbiont_wallet.Keystore.Bolt.{Bolt, Entries, lookup, insert}
use symbiont_wallet.Keystore.Store.{Db, index_key}
use symbiont_wallet.Keystore.Generate.{
  Derived, new_record, generate_address, generate_loop, pre_generate, count_available,
  count_available_fresh,
}
use symbiont_wallet.Keystore.Inversion.{rows}
use symbiont_wallet.Keystore.Writes.Generated.{generate_address_ok}
use symbiont_wallet.Keystore.Indexed.{
  IsIndexed, index_key_free, CounterIs-unique, generate_address-GrewBy,
}
use symbiont_wallet.Keystore.Kept.{Keeps, pre_generate-Keeps}

-- A new record at a free key is one more that is available.
count_available-insert :
    (k : Bytes) (n : ℕ) (d : Derived) (m : Entries AddressRecord)
    → lookup k m ≡ none
    → count_available (insert k (new_record n d) m) ≡ count_available m + 1
unfolding count_available insert lookup
count_available-insert k n d [] h = ground arith
count_available-insert k n d ((j, r) ∷ m) h = ground (arith, count_available-insert k n d m)

module _ (bolt : Bolt) (derive : Bytes → ℕ → Option Derived) where
  generate_address-count :
      (seed : Option Bytes) (db db' : Db bolt) (n : ℕ) {addr : Bytes}
      → IsIndexed bolt db n
      → n + 1 < word
      → generate_address bolt derive seed db ≡ (ok addr, db')
      → count_available_fresh bolt db' ≡ count_available_fresh bolt db + 1
  generate_address-count none db db' n h room ran =
      absurd (unfold generate_address in ground (arith, ran))
  generate_address-count (some seed) db db' n h room ran =
      let (idx, d, counter, derived, named, wrote, counter', txs, pend) =
        generate_address_ok bolt derive seed db db' ran in
      let same : idx ≡ n = CounterIs-unique bolt db idx n counter h.counter in
      let free : lookup (index_key idx) (rows bolt db) ≡ none =
        ap (λ i. lookup (index_key i) (rows bolt db)) same
        ∙ index_key_free bolt db n h (omega arith) in
      unfold count_available_fresh in
      ap count_available wrote ∙ count_available-insert (index_key idx) idx d (rows bolt db) free

module _ (bolt : Bolt) (derive : Bytes → ℕ → Option Derived) (seed : Option Bytes) where
  generate_loop-count :
      (m : ℕ) (db db' : Db bolt) (n : ℕ) {u : Unit {0}}
      → IsIndexed bolt db n
      → n + m < word
      → generate_loop bolt derive m seed db ≡ (ok u, db')
      → count_available_fresh bolt db' ≡ count_available_fresh bolt db + m
  generate_loop-count zero db db' n h room e =
      let same : db ≡ db' = unfold generate_loop in ground (arith, e) in
      omega (arith, ap (count_available_fresh bolt) same)
  generate_loop-count (suc m) db db' n h room e =
      let step = generate_address bolt derive seed db in
      let grown = generate_address-GrewBy bolt derive seed db n h (omega arith) in
      elim (Result-cases (step.0)) [
        | inr (bad, q) ↦ absurd (unfold generate_loop in ground (arith, e, q))
        | inl (addr, q) ↦
            let ran : step ≡ (ok addr, step.1) = ap (λ x. (x, step.1)) q in
            let one = generate_address-count bolt derive seed db (step.1) n h (omega arith) ran in
            let more =
              generate_loop-count m (step.1) db' grown.count grown.indexed
                (omega (arith, grown.bounded)) (unfold generate_loop in ground (arith, e, q)) in
            omega (arith, one, more)
      ]

  -- From a database that satisfies the invariant, where `m` more addresses cannot exhaust the uint64
  -- counter: when `PreGenerate` succeeds, every stored record is unchanged, and as many FRESH addresses
  -- that are not reserved are stored as were before, or `m` if that is more.
  pub pre_generate_ok :
      (m : ℕ) (db db' : Db bolt) (n : ℕ) {u : Unit {0}}
      → IsIndexed bolt db n
      → n + m < word
      → pre_generate bolt derive m seed db ≡ (ok u, db')
      → Keeps bolt db db'
        × (count_available_fresh bolt db'
            ≡ count_available_fresh bolt db + (m - count_available_fresh bolt db))
  pre_generate_ok m db db' n h room e = (
    subst (Keeps bolt db) (ap (λ r. r.1) e) (pre_generate-Keeps bolt derive m seed db n h room),
    generate_loop-count (m - count_available_fresh bolt db) db db' n h (omega arith)
        (unfold pre_generate in e),
  )
