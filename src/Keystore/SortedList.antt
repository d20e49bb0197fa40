-- ===== src/Keystore/SortedList.antt =====
-- A bucket as a sorted list of entries: the laws of `Bolt` can be met, and the tests run on it.
use symbiont_wallet.Base.{
  ◌≤◌, ◌≡◌, ◌≢◌, refl, ap, sym, Bool, true, false, Option, none, some, [], ◌∷◌, length, leb, arith,
  if◌then◌else◌,
}
use symbiont_wallet.Base.Bytes.{Bytes, bytes_lt, bytes_eq_iff, bytes_lt_total}
use symbiont_wallet.Keystore.Bolt.{Bolt, Entries, lookup, insert, remove, IsSorted, max_key_size}
use symbiont_wallet.Keystore.Rows.{IsAbove, IsAbove-trans}

module _ {V : Type 0} where
  insert-IsAbove :
      (j k : Bytes) (v : V) (m : Entries V)
      → bytes_lt j k ≡ true
      → IsAbove j m
      → IsAbove j (insert k v m)
  unfolding insert
  insert-IsAbove j k v [] h a = (h, tt)
  insert-IsAbove j k v ((i, w) ∷ m) h (p, a) = ground (arith, insert-IsAbove j k v m h a)

  pub insert-IsSorted : (k : Bytes) (v : V) (m : Entries V) → IsSorted m → IsSorted (insert k v m)
  unfolding insert
  insert-IsSorted k v [] s = (tt, tt)
  insert-IsSorted k v ((i, w) ∷ m) (a, s) = ground (
    arith,
    bytes_eq_iff k i,
    bytes_lt_total k i,
    IsAbove-trans k i m,
    insert-IsAbove i k v m,
    insert-IsSorted k v m s,
  )

  remove-IsAbove : (j k : Bytes) (m : Entries V) → IsAbove j m → IsAbove j (remove k m)
  unfolding remove
  remove-IsAbove j k [] a = tt
  remove-IsAbove j k ((i, w) ∷ m) (p, a) = ground (arith, remove-IsAbove j k m a)

  pub remove-IsSorted : (k : Bytes) (m : Entries V) → IsSorted m → IsSorted (remove k m)
  unfolding remove
  remove-IsSorted k [] s = tt
  remove-IsSorted k ((i, w) ∷ m) (a, s) =
      ground (arith, remove-IsAbove i k m a, remove-IsSorted k m s)

abbrev pub SortedBucket : Type 0 → Type 0
SortedBucket V = (m : Entries V) × IsSorted m

abbrev pub is_key : Bytes → Bool
is_key [] = false
is_key (b ∷ bs) = leb (length (b ∷ bs)) max_key_size

abbrev pub sorted_put : {V : Type 0} → SortedBucket V → Bytes → V → Option (SortedBucket V)
sorted_put t k v = if is_key k then some (insert k v t.0, insert-IsSorted k v t.0 t.1) else none

abbrev entries_of : {V : Type 0} → Option (SortedBucket V) → Entries V
entries_of none = []
entries_of (some t) = t.0

put_result :
    {V : Type 0} (good : Bool) (t t' : SortedBucket V)
    → (if good then some t else none) ≡ some t'
    → t'.0 ≡ t.0
put_result true t t' h = sym (ap entries_of h)
put_result false t t' h = cc

pub sorted_put-insert :
    {V : Type 0} (t : SortedBucket V) (k : Bytes) (v : V) {t' : SortedBucket V}
    → sorted_put t k v ≡ some t'
    → t'.0 ≡ insert k v t.0
sorted_put-insert t k v {t'} h = put_result (is_key k) _ t' h

pub sorted_put_accepts :
    {V : Type 0} (t : SortedBucket V) (k : Bytes) (v : V)
    → k ≢ []
    → length k ≤ max_key_size
    → sorted_put t k v ≢ none
sorted_put_accepts t [] v ne le e = ne refl
sorted_put_accepts t (b ∷ bs) v ne le e = ground arith

abbrev pub sorted_list_bolt : Bolt
sorted_list_bolt = record {
  Bucket = SortedBucket;
  empty = ([], tt);
  get = λ t k. lookup k t.0;
  put = sorted_put;
  delete = λ t k. (remove k t.0, remove-IsSorted k t.0 t.1);
  entries = λ t. t.0;
  entries-empty = λ V. refl;
  entries_sorted = λ t. t.1;
  get-lookup = λ t k. refl;
  put-insert = sorted_put-insert;
  put_accepts = sorted_put_accepts;
  delete-remove = λ t k. refl;
}
