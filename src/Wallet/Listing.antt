-- ===== src/Wallet/Listing.antt =====
-- wallet.go: `ListPurgeEligibleAddresses` and `ListAddresses`.
use symbiont_wallet.Base.{ℕ, Bool, List, [], ◌∷◌, concat_map, map, reverse, ltb, if◌then◌else◌}
use symbiont_wallet.Base.Bytes.{Bytes}
use symbiont_wallet.Base.Int64.{ℤ, leb_ℤ}
use symbiont_wallet.Keystore.Types.{
  AddressState, fresh, funded, spend_pending, spent, retired, AddressRecord, RecoveryOutpoint,
}
use symbiont_wallet.Keystore.Bolt.{Bolt}
use symbiont_wallet.Keystore.Store.{Db}
use symbiont_wallet.Keystore.Queries.{list_by_state}

-- `PurgeEligibleAddress`.
pub record PurgeEligible : Type 0 where
  pub address : Bytes
  pub confirmations : ℤ

-- The loop of `ListPurgeEligibleAddresses`.
unfoldable pub eligible_among : ℤ → (Bytes → ℤ) → List AddressRecord → List PurgeEligible
eligible_among threshold confirmations_for [] = []
eligible_among threshold confirmations_for (rec ∷ recs) =
    let rest = eligible_among threshold confirmations_for recs in
    let confs = confirmations_for (rec.address) in
    if leb_ℤ threshold confs
    then record { address = rec.address; confirmations = confs } ∷ rest
    else rest

-- `AddressInfo`: a record without its keys.
pub record AddressInfo : Type 0 where
  pub index : ℕ
  pub address : Bytes
  pub state : AddressState
  pub reserved : Bool
  pub spend_txid : Bytes
  pub has_recoverable_balance : Bool
  pub recovery_spend_txid : Bytes
  pub recoverable_outpoints : List RecoveryOutpoint
  pub recovery_pending_outpoints : List RecoveryOutpoint

unfoldable pub info_of : AddressRecord → AddressInfo
info_of rec = record {
  index = rec.index;
  address = rec.address;
  state = rec.state;
  reserved = rec.reserved;
  spend_txid = rec.spend_txid;
  has_recoverable_balance = rec.has_recoverable_balance;
  recovery_spend_txid = rec.recovery_spend_txid;
  recoverable_outpoints = rec.recoverable_outpoints;
  recovery_pending_outpoints = rec.recovery_pending_outpoints;
}

abbrev pub all_states : List AddressState
all_states = fresh ∷ funded ∷ spend_pending ∷ spent ∷ retired ∷ []

-- The inner loop of the sort: `info` moves down past the entries in front of it, nearest first,
-- while its index is the smaller one.
unfoldable pub sift_down : AddressInfo → List AddressInfo → List AddressInfo
sift_down info [] = info ∷ []
sift_down info (i ∷ before) =
    let rest = sift_down info before in
    if ltb (info.index) (i.index) then i ∷ rest else info ∷ i ∷ before

-- The outer loop, with the entries in front in reverse.
unfoldable pub sort_infos : List AddressInfo → List AddressInfo → List AddressInfo
sort_infos before [] = reverse before
sort_infos before (info ∷ infos) = sort_infos (sift_down info before) infos

module _ (bolt : Bolt) where
  -- `ListAddresses`.
  unfoldable pub list_addresses : Db bolt → List AddressInfo
  unfolding sort_infos info_of
  list_addresses db =
      sort_infos [] (map info_of (concat_map (λ s. list_by_state bolt s db) all_states))

  -- `ListPurgeEligibleAddresses`.
  unfoldable pub list_purge_eligible : ℤ → (Bytes → ℤ) → Db bolt → List PurgeEligible
  unfolding eligible_among
  list_purge_eligible threshold confirmations_for db =
      eligible_among threshold confirmations_for (list_by_state bolt spent db)
