-- ===== src/Gui/Pending.antt =====
-- main.go: broadcasts, and the list of signed transactions that wait for one.
use symbiont_wallet.Base.{
  ℕ, Bool, true, false, not, ◌&&◌, ◌||◌, Option, none, some, List, [], ◌∷◌, ◌++◌, length, ◌==◌,
  Result, ok, err, if◌then◌else◌,
}
use symbiont_wallet.Base.Bytes.{Bytes, bytes_eq, codes}
use symbiont_wallet.Base.Hex.{hex_decode}
use symbiont_wallet.Base.Int64.{ℤ, pos, ltb_ℤ}
use symbiont_wallet.Base.Maps.{lookup, get_or}
use symbiont_wallet.Address.Format.{Convert}
use symbiont_wallet.Keystore.Types.{
  AddressState, spent, state_eq, PendingBroadcast, RecoveryOutpoint,
}
use symbiont_wallet.Keystore.Types as K
use symbiont_wallet.Keystore.Bolt.{Bolt}
use symbiont_wallet.Keystore.Store.{Db}
use symbiont_wallet.Keystore.Generate.{Derived}
use symbiont_wallet.Keystore.Pending.{kind_spend, delete_pending_broadcast}
use symbiont_wallet.Wallet.Types as W
use symbiont_wallet.Wallet.Observe.{observe_spend_confirmation, observe_recoverable_balance}
use symbiont_wallet.Wallet.Listing.{AddressInfo, list_addresses}
use symbiont_wallet.TxBuilder.TxId.{tx_id_from_bip144}
use symbiont_wallet.Scan.Types.{FundingStatus}
use symbiont_wallet.Scan.Types as S
use symbiont_wallet.Scan.Balances.{no_funding, analyze_funding}
use symbiont_wallet.Node.Call.{Connection}
use symbiont_wallet.Node.Call as N
use symbiont_wallet.Node.Methods.{
  MempoolAcceptResult, Decoders, scan_tx_out_set, transaction_confirmations,
}
use symbiont_wallet.Gui.Inputs as I
use symbiont_wallet.Gui.Inputs.{recoverable_outpoints}

-- What `broadcastAndRecord` and `broadcastAndSettlePending` return beside the error of the send.
pub record Settled (F : Type 0) : Type 0 where
  pub txid : Bytes
  pub history_error : Option F
  pub clear_error : Option F

-- The texts of `inspectPendingBroadcast`, with the errors it returns beside them.
pub data Inspection (E F : Type 0) : Type 0 where
  uncertain : E → Inspection E F
  not_found relayed : Inspection E F
  reconciliation_failed cleanup_failed : F → Inspection E F
  cleared : Inspection E F

abbrev failure : {F : Type 0} → Result F (Unit {0}) → Option F
failure (ok u) = none
failure (err e) = some e

module _ {S E F : Type 0} where
  -- `broadcastAndRecord`.
  unfoldable pub broadcast_and_record :
      Result E Bytes → (Bytes → S → Result F (Unit {0}) × S) → S → Result E (Bytes × Option F) × S
  broadcast_and_record (err e) record_sent s = (err e, s)
  broadcast_and_record (ok txid) record_sent s =
      let (recorded, s1) = record_sent txid s in (ok (txid, failure recorded), s1)

  -- `broadcastAndSettlePending`.
  unfoldable pub broadcast_and_settle_pending :
      Result E Bytes
      → (Bytes → S → Result F (Unit {0}) × S)
      → (Bytes → S → Result F (Unit {0}) × S)
      → S
      → Result E (Settled F) × S
  broadcast_and_settle_pending (err e) record_sent clear s = (err e, s)
  broadcast_and_settle_pending (ok txid) record_sent clear s =
      let (recorded, s1) = record_sent txid s in
      let (done, s2) = clear txid s1 in
      (
        ok (record { txid = txid; history_error = failure recorded; clear_error = failure done }),
        s2,
      )

  -- `inspectPendingBroadcast`; the second part says whether a broadcast is offered.
  unfoldable pub inspect_pending_broadcast :
      PendingBroadcast
      → Result E (ℤ × Bool)
      → (PendingBroadcast → ℤ → S → Result F (Unit {0}) × S)
      → (Bytes → S → Result F (Unit {0}) × S)
      → S
      → (Inspection E F × Bool) × S
  inspect_pending_broadcast entry (err e) confirmed clear s = ((uncertain e, false), s)
  inspect_pending_broadcast entry (ok (confirmations, false)) confirmed clear s =
      ((not_found, true), s)
  inspect_pending_broadcast entry (ok (confirmations, true)) confirmed clear s =
      if ltb_ℤ confirmations (pos 1)
      then ((relayed, false), s)
      else (let (reconciled, s1) = confirmed entry confirmations s in
          elim reconciled [
            | err e ↦ ((reconciliation_failed e, false), s1)
            | ok u ↦
                (let (cleaned, s2) = clear (entry.txid) s1 in
                  elim cleaned [
                    | err e ↦ ((cleanup_failed e, false), s2)
                    | ok v ↦ ((cleared, false), s2)
                  ])
          ])

-- `validRaw`: the saved bytes decode and have the saved txid.
unfoldable pub is_valid_raw : (Bytes → Bytes) → PendingBroadcast → Bool
is_valid_raw sha256 rec = elim (hex_decode (rec.raw_hex)) [
  | none ↦ false
  | some raw ↦ elim (tx_id_from_bip144 sha256 raw) [
    | err e ↦ false
    | ok txid ↦ bytes_eq txid (rec.txid)
  ]
]

-- The guard of a test's result in the list.
unfoldable pub passes_test : PendingBroadcast → MempoolAcceptResult → Bool
passes_test rec result = not (
    not (result.allowed)
    || (not (length (result.txid) == 0) && not (bytes_eq (result.txid) (rec.txid))))

pub data Error : Type 0 where
  source_not_found still_pending : Error
  wallet_error : W.Error → Error
  keystore_error : K.Error → Error
  node_error : N.Error → Error
  scan_error : S.Error → Error
  outpoint_error : I.Error → Error

-- The loops over `ListAddresses` that look for one address.
unfoldable pub find_info : Bytes → List AddressInfo → Option AddressInfo
find_info addr [] = none
find_info addr (info ∷ infos) =
    if bytes_eq (info.address) addr then some info else find_info addr infos

module _ (bolt : Bolt) where
  -- The removal of a settled entry.
  unfoldable pub clear_pending : Bytes → Db bolt → Result Error (Unit {0}) × Db bolt
  clear_pending txid db =
      let (deleted, db') = delete_pending_broadcast bolt txid db in
      (elim deleted [ ok u ↦ ok tt | err e ↦ err (keystore_error e) ], db')

  -- The check that follows the observation of a recovery.
  unfoldable pub check_recovered : Bytes → Db bolt → Result Error (Unit {0})
  unfolding find_info
  check_recovered addr db = elim (find_info addr (list_addresses bolt db)) [
    | none ↦ err source_not_found
    | some info ↦ if length (info.recovery_pending_outpoints) == 0 then ok tt else err still_pending
  ]

module _ (bolt : Bolt) (derive : Bytes → ℕ → Option Derived) (seed : Option Bytes) where
  abbrev pub observed :
      {A : Type 0} → Result W.Error A × Db bolt → Result Error (Unit {0}) × Db bolt
  observed (ok a, db) = (ok tt, db)
  observed (err e, db) = (err (wallet_error e), db)

  -- The reconciliation of a pending spend that has confirmations.
  unfoldable pub reconcile_spend :
      PendingBroadcast → ℤ → Db bolt → Result Error (Unit {0}) × Db bolt
  unfolding find_info
  reconcile_spend entry confirmations db =
      elim (find_info (entry.source_address) (list_addresses bolt db)) [
        | none ↦ (err source_not_found, db)
        | some info ↦
            if state_eq (info.state) spent && bytes_eq (info.spend_txid) (entry.txid)
            then (ok tt, db)
            else observed (
                observe_spend_confirmation bolt derive seed (entry.source_address) (entry.txid)
                  confirmations db)
      ]

  module _ {Float : Type 0} (fixed8 : Float → Bytes) (decoders : Decoders Float) (node : Connection)
      (convert_bits : Convert) where
    -- The reconciliation of a pending recovery that has confirmations.
    unfoldable pub reconcile_recovery :
        PendingBroadcast → Db bolt → Result Error (Unit {0}) × Db bolt
    unfolding check_recovered
    reconcile_recovery entry db =
        let addr = entry.source_address in
        elim (scan_tx_out_set decoders node ((codes "addr(" ++ addr ++ codes ")") ∷ [])) [
          | err e ↦ (err (node_error e), db)
          | ok scan ↦ elim (analyze_funding fixed8 convert_bits scan (addr ∷ [])) [
            | err e ↦ (err (scan_error e), db)
            | ok statuses ↦ elim (recoverable_outpoints fixed8 convert_bits scan addr) [
              | err e ↦ (err (outpoint_error e), db)
              | ok outpoints ↦
                  let status = get_or no_funding (lookup addr statuses) in
                  let (seen, db') =
                    observe_recoverable_balance bolt derive seed addr (status.balance_sats)
                      (status.confirmations) outpoints db in
                  (
                    elim seen [
                      | err e ↦ err (wallet_error e)
                      | ok became ↦ check_recovered bolt addr db'
                    ],
                    db',
                  )
            ]
          ]
        ]

    -- The callback that `renderPending` gives to `inspectPendingBroadcast`.
    unfoldable pub reconcile : PendingBroadcast → ℤ → Db bolt → Result Error (Unit {0}) × Db bolt
    unfolding reconcile_spend reconcile_recovery
    reconcile entry confirmations db =
        if bytes_eq (entry.kind) kind_spend
        then reconcile_spend entry confirmations db
        else reconcile_recovery entry db

    -- What `renderPending` does for one entry with a node, once its bytes are valid.
    unfoldable pub inspect_entry :
        PendingBroadcast → Db bolt → (Inspection N.Error Error × Bool) × Db bolt
    unfolding inspect_pending_broadcast reconcile clear_pending
    inspect_entry entry db =
        inspect_pending_broadcast entry (transaction_confirmations decoders node (entry.txid))
          reconcile (clear_pending bolt) db
