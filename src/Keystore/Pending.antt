-- ===== src/Keystore/Pending.antt =====
-- pending.go: signed transactions that wait for broadcast.
use symbiont_wallet.Base.{
  Bool, true, false, not, ◌||◌, none, some, List, [], ◌∷◌, length, ◌==◌, ltb, Result, ok, err,
  if◌then◌else◌,
}
use symbiont_wallet.Base.Bytes.{Bytes, bytes_eq, bytes_lt, codes}
use symbiont_wallet.Base.Int64.{pos, leb_ℤ, ltb_ℤ}
use symbiont_wallet.Keystore.Types.{
  PendingBroadcast, Error, incomplete_pending, pending_conflict, pending_mismatch, put_failed,
}
use symbiont_wallet.Keystore.Bolt.{Bolt}
use symbiont_wallet.Keystore.Transaction.{Tx, ◌>>◌, pure, fail, fail_when, update}
use symbiont_wallet.Keystore.Store.{Db}

abbrev pub kind_spend : Bytes
kind_spend = codes "spend"

abbrev pub kind_recovery : Bytes
kind_recovery = codes "recovery"

abbrev pub is_empty : Bytes → Bool
is_empty [] = true
is_empty (b ∷ bs) = false

-- The first condition of `putPendingBroadcast`.
unfoldable pub is_incomplete_pending : PendingBroadcast → Bool
is_incomplete_pending rec =
    not (length rec.txid == 64)
    || is_empty rec.raw_hex
    || is_empty rec.source_address
    || leb_ℤ rec.amount_sats (pos 0)
    || ltb_ℤ rec.fee_sats (pos 0)
    || (rec.signed_at == 0)
    || not (bytes_eq rec.kind kind_spend || bytes_eq rec.kind kind_recovery)

-- The condition of `putPendingForTransition` on its one record.
unfoldable pub matches_transition : Bytes → Bytes → Bytes → PendingBroadcast → Bool
matches_transition txid source kind rec = not (
    not (bytes_eq rec.txid txid)
    || not (bytes_eq rec.source_address source)
    || not (bytes_eq rec.kind kind))

-- The order of `ListPendingBroadcasts`: the latest first, then by descending txid.
unfoldable pub pending_before : PendingBroadcast → PendingBroadcast → Bool
pending_before a b =
    if a.signed_at == b.signed_at then bytes_lt b.txid a.txid else ltb b.signed_at a.signed_at

module _ (bolt : Bolt) where
  open bolt use {get, put, delete, entries}

  -- The write of `putPendingBroadcast`.
  unfoldable pub store_pending : PendingBroadcast → Tx (Db bolt) (Unit {0})
  store_pending rec db = elim (get db.pending_broadcasts rec.txid) [
    | some _ ↦ err pending_conflict
    | none ↦ elim (put db.pending_broadcasts rec.txid rec) [
      | some t ↦ ok (tt, record db { pending_broadcasts = t })
      | none ↦ err put_failed
    ]
  ]

  -- `putPendingBroadcast`.
  unfoldable pub put_pending_broadcast : PendingBroadcast → Tx (Db bolt) (Unit {0})
  unfolding store_pending is_incomplete_pending
  put_pending_broadcast rec = do
    fail_when (is_incomplete_pending rec) incomplete_pending
    store_pending rec

  -- `putPendingForTransition`.
  unfoldable pub put_pending_for_transition :
      Bytes → Bytes → Bytes → List PendingBroadcast → Tx (Db bolt) (Unit {0})
  unfolding put_pending_broadcast matches_transition
  put_pending_for_transition txid source kind [] = pure tt
  put_pending_for_transition txid source kind (rec ∷ []) = do
    fail_when (not (matches_transition txid source kind rec)) pending_mismatch
    put_pending_broadcast rec
  put_pending_for_transition txid source kind (rec ∷ rec' ∷ more) = fail pending_mismatch

  -- `DeletePendingBroadcast`.
  unfoldable pub delete_pending_broadcast : Bytes → Db bolt → Result Error (Unit {0}) × Db bolt
  unfolding update
  delete_pending_broadcast txid =
      update λ db. ok (tt, record db { pending_broadcasts = delete db.pending_broadcasts txid })
