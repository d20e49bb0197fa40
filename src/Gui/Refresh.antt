-- ===== src/Gui/Refresh.antt =====
-- main.go: the button that refreshes the addresses, with a wallet and a node.
use symbiont_wallet.Base.{
  ℕ, suc, Bool, true, false, not, ◌&&◌, ◌||◌, Option, none, some, List, [], ◌∷◌, ◌++◌, map, keep,
  length, ◌==◌, ok, err, if◌then◌else◌,
}
use symbiont_wallet.Base.Bytes.{Bytes, codes}
use symbiont_wallet.Base.Int64.{ℤ, pos}
use symbiont_wallet.Base.Maps.{Map, lookup, insert, get_or}
use symbiont_wallet.Address.Format.{Convert}
use symbiont_wallet.Keystore.Types.{AddressState, fresh, spent, spend_pending, state_eq}
use symbiont_wallet.Keystore.Bolt.{Bolt}
use symbiont_wallet.Keystore.Store.{Db}
use symbiont_wallet.Keystore.Generate.{Derived}
use symbiont_wallet.Keystore.Pending.{is_empty}
use symbiont_wallet.Wallet.Observe.{
  IncomingDeposit, observe_funding_with_history, observe_recoverable_balance,
  observe_spend_confirmation,
}
use symbiont_wallet.Wallet.Listing.{AddressInfo, list_addresses}
use symbiont_wallet.Scan.Types.{ScanResult, FundingStatus, Deposit}
use symbiont_wallet.Scan.Balances.{
  no_funding, aggregate_balances, analyze_funding, analyze_deposits,
}
use symbiont_wallet.Node.Call.{Connection, tx_index_required}
use symbiont_wallet.Node.Methods.{Decoders, scan_tx_out_set, transaction_confirmations}
use symbiont_wallet.Gui.Inputs.{recoverable_outpoints}

-- The variables of the handler: `failed` says whether `balanceErr` is set.
pub record Refresh : Type 0 where
  pub infos : List AddressInfo
  pub balances : Map ℤ
  pub failed : Bool
  pub funded_detected : ℕ
  pub spent_detected : ℕ
  pub not_found : ℕ
  pub index_required : ℕ
  pub untracked : ℕ

abbrev pub address_of : AddressInfo → Bytes
address_of info = info.address

-- The addresses in a state.
unfoldable pub addresses_in : AddressState → List AddressInfo → List Bytes
addresses_in state infos = map address_of (keep (λ i. state_eq (i.state) state) infos)

abbrev pub descriptor : Bytes → Bytes
descriptor addr = codes "addr(" ++ addr ++ codes ")"

abbrev pub incoming_of : List Deposit → List IncomingDeposit
incoming_of ds = map (λ d. record { txid = d.txid; amount_sats = d.amount_sats }) ds

-- A balance for each listed address.
unfoldable pub fill_balances : List AddressInfo → Map ℤ → Map ℤ
fill_balances [] balances = balances
fill_balances (i ∷ infos) balances = fill_balances infos (elim (lookup (i.address) balances) [
  | some sats ↦ balances
  | none ↦ insert (i.address) (pos 0) balances
])

abbrev pub no_balances : Map ℤ
no_balances = []

abbrev pub fails : Refresh → Refresh
fails r = record r { failed = true }

module _ (bolt : Bolt) (derive : Bytes → ℕ → Option Derived) (seed : Option Bytes) where
  -- Before anything is asked.
  abbrev pub initial : Db bolt → Refresh
  initial db = record {
    infos = list_addresses bolt db;
    balances = no_balances;
    failed = false;
    funded_detected = 0;
    spent_detected = 0;
    not_found = 0;
    index_required = 0;
    untracked = 0;
  }

  -- The loop over the FRESH addresses: how many were funded, and whether it stopped at an error.
  unfoldable pub observe_fresh :
      Map FundingStatus → Map (List Deposit) → ℕ → List Bytes → Db bolt → (ℕ × Bool) × Db bolt
  observe_fresh funding deposits now [] db = ((0, false), db)
  observe_fresh funding deposits now (addr ∷ addrs) db =
      let status = get_or no_funding (lookup addr funding) in
      let incoming = incoming_of (get_or [] (lookup addr deposits)) in
      let (r, db1) =
        observe_funding_with_history bolt derive seed addr (status.balance_sats)
          (status.confirmations) incoming now db in
      let ((n, stopped), db2) = observe_fresh funding deposits now addrs db1 in
      elim r [
        | err e ↦ ((0, true), db1)
        | ok changed ↦ ((if changed then suc n else n, stopped), db2)
      ]

  module _ {Float : Type 0} (fixed8 : Float → Bytes) (convert_bits : Convert) where
    -- The loop over the SPENT addresses: whether it stopped at an error.
    unfoldable pub observe_spent :
        ScanResult Float → Map FundingStatus → List Bytes → Db bolt → Bool × Db bolt
    observe_spent scan statuses [] db = (false, db)
    observe_spent scan statuses (addr ∷ addrs) db =
        elim (recoverable_outpoints fixed8 convert_bits scan addr) [
          | err e ↦ (true, db)
          | ok outpoints ↦
              (let status = get_or no_funding (lookup addr statuses) in
                let (r, db1) =
                  observe_recoverable_balance bolt derive seed addr (status.balance_sats)
                    (status.confirmations) outpoints db in
                let rest = observe_spent scan statuses addrs db1 in
                elim r [ err e ↦ (true, db1) | ok became ↦ rest ])
        ]

    module _ (decoders : Decoders Float) (node : Connection) (walk : Map ℤ → Map ℤ) (now : ℕ) where
      -- The first part: the balances of all addresses, and what the FRESH ones received.
      unfoldable pub refresh_funding : Refresh → Db bolt → Refresh × Db bolt
      unfolding addresses_in observe_fresh fill_balances
      refresh_funding r db =
          let all = map address_of (r.infos) in
          let fresh_addrs = addresses_in fresh (r.infos) in
          if length all == 0
          then (r, db)
          else elim (scan_tx_out_set decoders node (map descriptor all)) [
            | err e ↦ (fails r, db)
            | ok scan ↦ elim (aggregate_balances fixed8 convert_bits scan all) [
              | err e ↦ (fails r, db)
              | ok balances ↦ elim (analyze_funding fixed8 convert_bits scan fresh_addrs) [
                | err e ↦ (record r { balances = balances; failed = true }, db)
                | ok funding ↦ elim (analyze_deposits walk fixed8 convert_bits scan fresh_addrs) [
                  | err e ↦ (record r { balances = balances; failed = true }, db)
                  | ok deposits ↦
                      let ((n, stopped), db1) = observe_fresh funding deposits now fresh_addrs db in
                      let infos =
                        if not (n == 0) && not stopped then list_addresses bolt db1 else r.infos in
                      (
                        record r {
                          infos = infos;
                          balances =
                              if not (n == 0) && not stopped
                              then fill_balances infos balances
                              else balances;
                          failed = stopped;
                          funded_detected = n;
                        },
                        db1,
                      )
                ]
              ]
            ]
          ]

      -- The second part: what was returned to the SPENT addresses.
      unfoldable pub refresh_recoverable : Refresh → Db bolt → Refresh × Db bolt
      unfolding addresses_in observe_spent
      refresh_recoverable r db =
          let spent_addrs = addresses_in spent (r.infos) in
          if length spent_addrs == 0
          then (r, db)
          else elim (scan_tx_out_set decoders node (map descriptor spent_addrs)) [
            | err e ↦ (fails r, db)
            | ok scan ↦ elim (analyze_funding fixed8 convert_bits scan spent_addrs) [
              | err e ↦ (fails r, db)
              | ok statuses ↦
                  let (stopped, db1) = observe_spent scan statuses spent_addrs db in
                  (record r { infos = list_addresses bolt db1; failed = r.failed || stopped }, db1)
            ]
          ]

      -- One round of the loop over the SPEND_PENDING addresses.
      unfoldable pub refresh_pending : AddressInfo → Refresh → Db bolt → Refresh × Db bolt
      refresh_pending info r db =
          if not (state_eq (info.state) spend_pending)
          then (r, db)
          else if is_empty (info.spend_txid)
          then (record r { untracked = suc (r.untracked) }, db)
          else elim (transaction_confirmations decoders node (info.spend_txid)) [
            | err tx_index_required ↦ (record r { index_required = suc (r.index_required) }, db)
            | err e ↦ (fails r, db)
            | ok (confirmations, false) ↦ (record r { not_found = suc (r.not_found) }, db)
            | ok (confirmations, true) ↦
                (let (seen, db1) =
                    observe_spend_confirmation bolt derive seed (info.address) (info.spend_txid)
                      confirmations db in
                  elim seen [
                    | err e ↦ (fails r, db1)
                    | ok changed ↦ (
                      if changed then record r { spent_detected = suc (r.spent_detected) } else r,
                      db1,
                    )
                  ])
          ]

      unfoldable pub refresh_each_pending : List AddressInfo → Refresh → Db bolt → Refresh × Db bolt
      unfolding refresh_pending
      refresh_each_pending [] r db = (r, db)
      refresh_each_pending (info ∷ infos) r db =
          let (r1, db1) = refresh_pending info r db in refresh_each_pending infos r1 db1

      -- The handler of `refreshBtn`.
      unfoldable pub refresh : Db bolt → Refresh × Db bolt
      unfolding refresh_funding refresh_recoverable refresh_each_pending
      refresh db =
          let (r1, db1) = refresh_funding (initial db) db in
          let (r2, db2) = refresh_recoverable r1 db1 in
          let (r3, db3) = refresh_each_pending (r2.infos) r2 db2 in
          (
            if r3.spent_detected == 0 then r3 else record r3 { infos = list_addresses bolt db3 },
            db3,
          )
