-- ===== src/Keystore/Rows.antt =====
-- A bucket's entries under reads, writes and the scan of `findRecord`.
use symbiont_wallet.Base.{◌≡◌, refl, true, none, some, [], ◌∷◌, All, arith, if◌then◌else◌}
use symbiont_wallet.Base.Bytes.{
  Bytes, bytes_eq, bytes_lt, bytes_eq_iff, bytes_eq_refl, bytes_lt_irrefl, bytes_lt_trans,
}
use symbiont_wallet.Keystore.Types.{AddressRecord}
use symbiont_wallet.Keystore.Bolt.{Entries, lookup, insert, remove, IsSorted}
use symbiont_wallet.Keystore.Store.{find_address}

module _ {V : Type 0} where
  pub lookup-insert :
      (j k : Bytes) (v : V) (m : Entries V)
      → lookup j (insert k v m) ≡ (if bytes_eq j k then some v else lookup j m)
  unfolding lookup insert
  lookup-insert j k v [] = refl
  lookup-insert j k v ((i, w) ∷ m) = ground (
    arith,
    bytes_eq_iff k j,
    bytes_eq_iff j k,
    bytes_eq_iff k i,
    bytes_eq_iff j i,
    lookup-insert j k v m,
  )

  abbrev pub IsAbove : Bytes → Entries V → Type 0
  IsAbove k m = All (λ e. bytes_lt k e.0 ≡ true) m

  pub IsAbove-trans :
      (j k : Bytes) (m : Entries V) → bytes_lt j k ≡ true → IsAbove k m → IsAbove j m
  IsAbove-trans j k [] h a = tt
  IsAbove-trans j k (e ∷ m) h (p, a) = (bytes_lt_trans j k e.0 h p, IsAbove-trans j k m h a)

  -- A key below all others is not among them.
  pub lookup_below : (k : Bytes) (m : Entries V) → IsAbove k m → lookup k m ≡ none
  unfolding lookup
  lookup_below k [] a = refl
  lookup_below k ((j, v) ∷ m) (p, a) =
      ground (arith, bytes_eq_iff k j, bytes_lt_irrefl k, lookup_below k m a)

  pub lookup-remove :
      (j k : Bytes) (m : Entries V)
      → IsSorted m
      → lookup j (remove k m) ≡ (if bytes_eq j k then none else lookup j m)
  unfolding lookup remove
  lookup-remove j k [] s = ground arith
  lookup-remove j k ((i, w) ∷ m) (a, s) = ground (
    arith,
    bytes_eq_iff j k,
    bytes_eq_iff k i,
    bytes_eq_iff j i,
    lookup_below i m a,
    lookup-remove j k m s,
  )

-- The scan finds a stored record of that address, at its key.
pub find_address-lookup :
    (addr k : Bytes) (rec : AddressRecord) (m : Entries AddressRecord)
    → IsSorted m
    → find_address addr m ≡ some (k, rec)
    → (lookup k m ≡ some rec) × (rec.address ≡ addr)
unfolding find_address lookup
find_address-lookup addr k rec [] s e = cc
find_address-lookup addr k rec ((j, r) ∷ m) (a, s) e = ground (
  arith,
  bytes_eq_refl j,
  bytes_eq_iff r.address addr,
  bytes_eq_iff k j,
  find_address-lookup addr k rec m s,
  lookup_below j m a,
)
