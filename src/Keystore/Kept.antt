-- ===== src/Keystore/Kept.antt =====
-- keystore.go: filling the pool leaves every stored record as it is.
use symbiont_wallet.Base.{
  ℕ, zero, suc, ◌+◌, ◌-◌, ◌<◌, ◌≡◌, inl, inr, Option, none, some, Result-cases, arith,
}
use symbiont_wallet.Base.Bytes.{Bytes, bytes_eq_iff}
use symbiont_wallet.Base.Int64.{word}
use symbiont_wallet.Keystore.Types.{AddressRecord}
use symbiont_wallet.Keystore.Bolt.{Bolt, lookup}
use symbiont_wallet.Keystore.Store.{Db, index_key}
use symbiont_wallet.Keystore.Generate.{
  Derived, new_record, generate_address, generate_loop, pre_generate, count_available_fresh,
}
use symbiont_wallet.Keystore.Rows.{lookup-insert}
use symbiont_wallet.Keystore.Inversion.{rows}
use symbiont_wallet.Keystore.Evolution.{update_rule}
use symbiont_wallet.Keystore.Writes.Generated.{generate_address_ok}
use symbiont_wallet.Keystore.Indexed.{
  IsIndexed, index_key_free, CounterIs-unique, generate_address-GrewBy,
}

module _ (bolt : Bolt) where
  -- Every record of `db` stands in `s` unchanged.
  abbrev pub Keeps : Db bolt → Db bolt → Type 0
  Keeps db s =
      (k : Bytes) (r : AddressRecord)
      → lookup k (rows bolt db) ≡ some r
      → lookup k (rows bolt s) ≡ some r

  module _ (derive : Bytes → ℕ → Option Derived) where
    generate_address-Keeps :
        (seed : Option Bytes) (db : Db bolt) (n : ℕ)
        → IsIndexed bolt db n
        → n + 1 < word
        → Keeps db (generate_address bolt derive seed db).1
    unfolding generate_address
    generate_address-Keeps none db n h room = λ k r e. e
    generate_address-Keeps (some seed) db n h room =
        update_rule (Keeps db) _ db (λ k r e. e)
          λ addr s ran k r e.
            let (idx, d, counter, derived, named, wrote, counter', txs, pend) =
              generate_address_ok bolt derive seed db s ran in
            let free = index_key_free bolt db n h (omega arith) in
            ground (
              arith,
              CounterIs-unique bolt db idx n counter h.counter,
              wrote,
              free,
              lookup-insert k (index_key n) (new_record n d) (rows bolt db),
              bytes_eq_iff k (index_key n),
            )

    generate_loop-Keeps :
        (m : ℕ) (seed : Option Bytes) (db : Db bolt) (n : ℕ)
        → IsIndexed bolt db n
        → n + m < word
        → Keeps db (generate_loop bolt derive m seed db).1
    unfolding generate_loop
    generate_loop-Keeps zero seed db n h room = λ k r e. e
    generate_loop-Keeps (suc m) seed db n h room =
        let first = generate_address-Keeps seed db n h (omega arith) in
        let grown = generate_address-GrewBy bolt derive seed db n h (omega arith) in
        elim (Result-cases (generate_address bolt derive seed db).0) [
          | inr (x, q) ↦ rw (q, generate_loop) first
          | inl (addr, q) ↦
              let more =
                generate_loop-Keeps m seed _ grown.count grown.indexed
                  (omega (arith, grown.bounded)) in
              rw (q, generate_loop) (λ k r e. more k r (first k r e))
        ]

    pub pre_generate-Keeps :
        (m : ℕ) (seed : Option Bytes) (db : Db bolt) (n : ℕ)
        → IsIndexed bolt db n
        → n + m < word
        → Keeps db (pre_generate bolt derive m seed db).1
    unfolding pre_generate
    pre_generate-Keeps m seed db n h room =
        generate_loop-Keeps (m - count_available_fresh bolt db) seed db n h (omega arith)
