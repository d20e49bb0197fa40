-- ===== src/Wallet/Listed.antt =====
-- wallet.go: what `ListAddresses` lists is stored.
use symbiont_wallet.Base.{
  ◌≡◌, refl, true, some, List, [], ◌∷◌, map, All, All-append, All-imp, All-both, inl, inr,
  concat_map, reverse_onto-All, Bool-cases, ltb, arith,
}
use symbiont_wallet.Base.Bytes.{Bytes, bytes_lt, bytes_eq_iff, bytes_eq_refl, bytes_lt_irrefl}
use symbiont_wallet.Keystore.Types.{AddressState, AddressRecord, state_eq}
use symbiont_wallet.Keystore.Bolt.{Bolt, Entries, lookup, IsSorted}
use symbiont_wallet.Keystore.Store.{Db}
use symbiont_wallet.Keystore.Queries.{in_state, list_by_state}
use symbiont_wallet.Keystore.Inversion.{rows}
use symbiont_wallet.Wallet.Listing.{
  AddressInfo, info_of, all_states, sift_down, sort_infos, list_addresses,
}

-- Every entry of a walk is what is found at its key.
rows_stored :
    {V : Type 0} (m : Entries V)
    → IsSorted m
    → All (λ (e : Bytes × V). lookup (e.0) m ≡ some (e.1)) m
unfolding lookup
rows_stored [] s = tt
rows_stored ((j, v) ∷ m) (a, s) = (
  ground (arith, bytes_eq_refl j),
  All-both
      (λ e (k : bytes_lt j (e.0) ≡ true) (h : lookup (e.0) m ≡ some (e.1)).
        ground (arith, h, bytes_eq_iff (e.0) j, bytes_lt_irrefl j, k))
      m a (rows_stored m s),
)

module _ {ℓ} (P : AddressInfo → Type ℓ) where
  sift_down-All :
      (info : AddressInfo) (before : List AddressInfo)
      → P info
      → All P before
      → All P (sift_down info before)
  unfolding sift_down
  sift_down-All info [] p h = (p, tt)
  sift_down-All info (i ∷ before) p (q, h) = elim (Bool-cases (ltb (info.index) (i.index))) [
    | inl e ↦ rw e (q, sift_down-All info before p h)
    | inr e ↦ rw e (p, (q, h))
  ]

  sort_infos-All :
      (before infos : List AddressInfo)
      → All P before
      → All P infos
      → All P (sort_infos before infos)
  unfolding sort_infos
  sort_infos-All before [] h k = reverse_onto-All P [] before tt h
  sort_infos-All before (info ∷ infos) h (p, k) =
      sort_infos-All (sift_down info before) infos (sift_down-All info before p h) k

module _ {ℓ} (P : AddressRecord → Type ℓ) where
  in_state-All :
      (s : AddressState) (m : Entries AddressRecord)
      → All (λ (e : Bytes × AddressRecord). P (e.1)) m
      → All P (in_state s m)
  unfolding in_state
  in_state-All s [] h = tt
  in_state-All s ((k, rec) ∷ m) (p, h) = elim (Bool-cases (state_eq rec.state s)) [
    | inl e ↦ rw e (p, in_state-All s m h)
    | inr e ↦ rw e (in_state-All s m h)
  ]

  in_states-All :
      (m : Entries AddressRecord)
      → All (λ (e : Bytes × AddressRecord). P (e.1)) m
      → (states : List AddressState) → All P (concat_map (λ s. in_state s m) states)
  in_states-All m h [] = tt
  in_states-All m h (s ∷ states) =
      All-append P (in_state s m) (concat_map (λ s. in_state s m) states) (in_state-All s m h)
        (in_states-All m h states)

infos-All {ℓ} :
    (P : AddressInfo → Type ℓ) (recs : List AddressRecord)
    → All (λ r. P (info_of r)) recs
    → All P (map info_of recs)
infos-All P [] h = tt
infos-All P (r ∷ recs) (p, h) = (p, infos-All P recs h)

module _ (bolt : Bolt) where
  open bolt use {entries_sorted}

  -- A listed address is that of a record, which is stored.
  abbrev pub IsListed : Db bolt → AddressInfo → Type 0
  IsListed db info =
      (key : Bytes) × (rec : AddressRecord) × (lookup key (rows bolt db) ≡ some rec)
      × (info ≡ info_of rec)

  pub list_addresses-All : (db : Db bolt) → All (IsListed db) (list_addresses bolt db)
  unfolding list_addresses
  list_addresses-All db =
      let P = IsListed db in
      let m = rows bolt db in
      let stored : All (λ (e : Bytes × AddressRecord). P (info_of (e.1))) m =
        All-imp (λ e (h : lookup (e.0) m ≡ some (e.1)). (e.0, e.1, h, refl)) m
          (rows_stored m (entries_sorted (db.addresses))) in
      unfold list_by_state in
      sort_infos-All P [] (map info_of (concat_map (λ s. in_state s m) all_states)) tt (
        infos-All P (concat_map (λ s. in_state s m) all_states)
          (in_states-All (λ r. P (info_of r)) m stored all_states))
