-- ===== src/Keystore/Bolt.antt =====
-- go.etcd.io/bbolt, as far as keystore/*.go use it: a bucket is a finite map from byte strings to
-- values, walked in byte order. The database is a parameter of the model; the laws are the
-- documented behaviour of `Get`, `Put`, `Delete` and `ForEach`.
use symbiont_wallet.Base.{
  ℕ, ◌≤◌, ◌≡◌, ◌≢◌, true, Option, none, some, List, [], ◌∷◌, All, length, if◌then◌else◌,
}
use symbiont_wallet.Base.Bytes.{Bytes, bytes_eq, bytes_lt}

-- What a walk over a bucket yields: keys with their values.
abbrev pub Entries : Type 0 → Type 0
Entries V = List (Bytes × V)

module _ {V : Type 0} where
  -- The value at a key.
  unfoldable pub lookup : Bytes → Entries V → Option V
  lookup k [] = none
  lookup k ((j, v) ∷ m) = if bytes_eq k j then some v else lookup k m

  -- A write: in place of the old value of the key, or where the key belongs in the order.
  unfoldable pub insert : Bytes → V → Entries V → Entries V
  insert k v [] = (k, v) ∷ []
  insert k v ((j, w) ∷ m) =
      let rest = insert k v m in
      if bytes_eq k j
      then (k, v) ∷ m
      else if bytes_lt k j
      then (k, v) ∷ (j, w) ∷ m
      else (j, w) ∷ rest

  unfoldable pub remove : Bytes → Entries V → Entries V
  remove k [] = []
  remove k ((j, w) ∷ m) = let rest = remove k m in if bytes_eq k j then m else (j, w) ∷ rest

  -- Keys grow along the walk.
  abbrev pub IsSorted : Entries V → Type 0
  IsSorted [] = Unit
  IsSorted ((k, v) ∷ m) = All (λ e. bytes_lt k e.0 ≡ true) m × IsSorted m

-- `MaxKeySize`.
abbrev pub max_key_size : ℕ
max_key_size = 32768

pub record Bolt : Type 1 where
  pub Bucket : Type 0 → Type 0
  pub empty : {V : Type 0} → Bucket V
  pub get : {V : Type 0} → Bucket V → Bytes → Option V
  -- `none` is an error of `Put`.
  pub put : {V : Type 0} → Bucket V → Bytes → V → Option (Bucket V)
  pub delete : {V : Type 0} → Bucket V → Bytes → Bucket V
  pub entries : {V : Type 0} → Bucket V → Entries V
  pub entries-empty : (V : Type 0) → entries (empty {V = V}) ≡ []
  pub entries_sorted : {V : Type 0} (t : Bucket V) → IsSorted (entries t)
  pub get-lookup : {V : Type 0} (t : Bucket V) (k : Bytes) → get t k ≡ lookup k (entries t)
  pub put-insert :
      {V : Type 0} (t : Bucket V) (k : Bytes) (v : V) {t' : Bucket V}
      → put t k v ≡ some t'
      → entries t' ≡ insert k v (entries t)
  pub put_accepts :
      {V : Type 0} (t : Bucket V) (k : Bytes) (v : V)
      → k ≢ []
      → length k ≤ max_key_size
      → put t k v ≢ none
  pub delete-remove :
      {V : Type 0} (t : Bucket V) (k : Bytes) → entries (delete t k) ≡ remove k (entries t)
