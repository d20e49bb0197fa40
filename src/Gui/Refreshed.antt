-- ===== src/Gui/Refreshed.antt =====
-- main.go: what the button that refreshes the addresses may do to the database.
use symbiont_wallet.Base.{
  ℕ, not, inl, inr, Option, List, [], ◌∷◌, map, length, ◌==◌, Bool-cases, Result-cases, arith,
}
use symbiont_wallet.Base.Bytes.{Bytes}
use symbiont_wallet.Base.Int64.{ℤ}
use symbiont_wallet.Base.Maps.{Map, lookup, get_or}
use symbiont_wallet.Address.Format.{Convert}
use symbiont_wallet.Keystore.Types.{fresh, spent, spend_pending, state_eq}
use symbiont_wallet.Keystore.Bolt.{Bolt}
use symbiont_wallet.Keystore.Store.{Db}
use symbiont_wallet.Keystore.Generate.{Derived}
use symbiont_wallet.Keystore.Pending.{is_empty}
use symbiont_wallet.Wallet.Observe.{
  observe_funding_with_history, observe_recoverable_balance, observe_spend_confirmation,
}
use symbiont_wallet.Wallet.Listing.{AddressInfo}
use symbiont_wallet.Scan.Types.{ScanResult, FundingStatus, Deposit}
use symbiont_wallet.Scan.Balances.{
  no_funding, aggregate_balances, analyze_funding, analyze_deposits,
}
use symbiont_wallet.Node.Call.{Connection}
use symbiont_wallet.Node.Methods.{Decoders, scan_tx_out_set, transaction_confirmations}
use symbiont_wallet.Gui.Inputs.{recoverable_outpoints}
use symbiont_wallet.Gui.Observing.{
  IsRefreshed, unchanged, followed_by, reaches, observe_funding-IsRefreshed,
  observe_recoverable-IsRefreshed, observe_spend-IsRefreshed,
}
use symbiont_wallet.Gui.Refresh.{
  Refresh, address_of, addresses_in, descriptor, incoming_of, observe_fresh, observe_spent,
  refresh_funding, refresh_recoverable, refresh_pending, refresh_each_pending, initial, refresh,
}

module _ (bolt : Bolt) (derive : Bytes → ℕ → Option Derived) (seed : Option Bytes) where
  observe_fresh-IsRefreshed :
      (funding : Map FundingStatus) (deposits : Map (List Deposit)) (now : ℕ) (addrs : List Bytes)
      (db : Db bolt)
      → IsRefreshed bolt derive seed db
          (observe_fresh bolt derive seed funding deposits now addrs db).1
  unfolding observe_fresh
  observe_fresh-IsRefreshed funding deposits now [] db = unchanged bolt derive seed db
  observe_fresh-IsRefreshed funding deposits now (addr ∷ addrs) db =
      let status = get_or no_funding (lookup addr funding) in
      let incoming = incoming_of (get_or [] (lookup addr deposits)) in
      let one =
        observe_funding_with_history bolt derive seed addr (status.balance_sats)
          (status.confirmations) incoming now db in
      let moved =
        observe_funding-IsRefreshed bolt derive seed addr (status.balance_sats)
          (status.confirmations) incoming now db in
      elim (Result-cases (one.0)) [
        | inr (bad, e) ↦ reaches bolt derive seed db (one.1) _ moved (ground (arith, e))
        | inl (changed, e) ↦
            let rest = observe_fresh-IsRefreshed funding deposits now addrs (one.1) in
            reaches bolt derive seed db _ _ (followed_by bolt derive seed db (one.1) _ moved rest)
              (ground (arith, e))
      ]

  module _ {Float : Type 0} (fixed8 : Float → Bytes) (convert_bits : Convert) where
    observe_spent-IsRefreshed :
        (scan : ScanResult Float) (statuses : Map FundingStatus) (addrs : List Bytes) (db : Db bolt)
        → IsRefreshed bolt derive seed db
            (observe_spent bolt derive seed fixed8 convert_bits scan statuses addrs db).1
    unfolding observe_spent
    observe_spent-IsRefreshed scan statuses [] db = unchanged bolt derive seed db
    observe_spent-IsRefreshed scan statuses (addr ∷ addrs) db =
        let status = get_or no_funding (lookup addr statuses) in
        elim (Result-cases (recoverable_outpoints fixed8 convert_bits scan addr)) [
          | inr (bad, o) ↦
              reaches bolt derive seed db db _ (unchanged bolt derive seed db) (ground (arith, o))
          | inl (outpoints, o) ↦
              let one =
                observe_recoverable_balance bolt derive seed addr (status.balance_sats)
                  (status.confirmations) outpoints db in
              let moved =
                observe_recoverable-IsRefreshed bolt derive seed addr (status.balance_sats)
                  (status.confirmations) outpoints db in
              elim (Result-cases (one.0)) [
                | inr (bad, e) ↦ reaches bolt derive seed db (one.1) _ moved (ground (arith, o, e))
                | inl (became, e) ↦
                    let rest = observe_spent-IsRefreshed scan statuses addrs (one.1) in
                    reaches bolt derive seed db _ _
                      (followed_by bolt derive seed db (one.1) _ moved rest) (ground (arith, o, e))
              ]
        ]

    module _ (decoders : Decoders Float) (node : Connection) (walk : Map ℤ → Map ℤ) (now : ℕ) where
      refresh_funding-IsRefreshed :
          (r : Refresh) (db : Db bolt)
          → IsRefreshed bolt derive seed db
              (refresh_funding bolt derive seed fixed8 convert_bits decoders node walk now r db).1
      unfolding refresh_funding
      refresh_funding-IsRefreshed r db =
          let all = map address_of (r.infos) in
          let fresh_addrs = addresses_in fresh (r.infos) in
          let same = unchanged bolt derive seed db in
          elim (Bool-cases (length all == 0)) [
            | inl z ↦ reaches bolt derive seed db db _ same (ground (arith, z))
            | inr z ↦ elim (Result-cases (scan_tx_out_set decoders node (map descriptor all))) [
              | inr (bad, s) ↦ reaches bolt derive seed db db _ same (ground (arith, z, s))
              | inl (scan, s) ↦
                  let summed = aggregate_balances fixed8 convert_bits scan all in
                  let funded = analyze_funding fixed8 convert_bits scan fresh_addrs in
                  let paid = analyze_deposits walk fixed8 convert_bits scan fresh_addrs in
                  elim (Result-cases summed) [
                    | inr (bad, a) ↦ reaches bolt derive seed db db _ same (ground (arith, z, s, a))
                    | inl (balances, a) ↦ elim (Result-cases funded) [
                      | inr (bad, f) ↦
                          reaches bolt derive seed db db _ same (ground (arith, z, s, a, f))
                      | inl (funding, f) ↦ elim (Result-cases paid) [
                        | inr (bad, d) ↦
                            reaches bolt derive seed db db _ same (ground (arith, z, s, a, f, d))
                        | inl (deposits, d) ↦
                            reaches bolt derive seed db _ _
                              (observe_fresh-IsRefreshed funding deposits now fresh_addrs db)
                              (ground (arith, z, s, a, f, d))
                      ]
                    ]
                  ]
            ]
          ]

      refresh_recoverable-IsRefreshed :
          (r : Refresh) (db : Db bolt)
          → IsRefreshed bolt derive seed db
              (refresh_recoverable bolt derive seed fixed8 convert_bits decoders node walk now r
                db).1
      unfolding refresh_recoverable
      refresh_recoverable-IsRefreshed r db =
          let spent_addrs = addresses_in spent (r.infos) in
          let same = unchanged bolt derive seed db in
          elim (Bool-cases (length spent_addrs == 0)) [
            | inl z ↦ reaches bolt derive seed db db _ same (ground (arith, z))
            | inr z ↦
                elim (Result-cases (scan_tx_out_set decoders node (map descriptor spent_addrs))) [
                  | inr (bad, s) ↦ reaches bolt derive seed db db _ same (ground (arith, z, s))
                  | inl (scan, s) ↦
                      elim (Result-cases (analyze_funding fixed8 convert_bits scan spent_addrs)) [
                        | inr (bad, f) ↦
                            reaches bolt derive seed db db _ same (ground (arith, z, s, f))
                        | inl (statuses, f) ↦
                            reaches bolt derive seed db _ _
                              (observe_spent-IsRefreshed scan statuses spent_addrs db)
                              (ground (arith, z, s, f))
                      ]
                ]
          ]

      refresh_pending-IsRefreshed :
          (info : AddressInfo) (r : Refresh) (db : Db bolt)
          → IsRefreshed bolt derive seed db
              (refresh_pending bolt derive seed fixed8 convert_bits decoders node walk now info r
                db).1
      unfolding refresh_pending
      refresh_pending-IsRefreshed info r db =
          let asked = transaction_confirmations decoders node (info.spend_txid) in
          let same = unchanged bolt derive seed db in
          elim (Bool-cases (not (state_eq (info.state) spend_pending))) [
            | inl p ↦ reaches bolt derive seed db db _ same (ground (arith, p))
            | inr p ↦ elim (Bool-cases (is_empty (info.spend_txid))) [
              | inl t ↦ reaches bolt derive seed db db _ same (ground (arith, p, t))
              | inr t ↦ elim (Result-cases asked) [
                | inr (bad, a) ↦ reaches bolt derive seed db db _ same (ground (arith, p, t, a))
                | inl ((confirmations, found), a) ↦ elim (Bool-cases found) [
                  | inr f ↦ reaches bolt derive seed db db _ same (ground (arith, p, t, a, f))
                  | inl f ↦
                      let seen =
                        observe_spend_confirmation bolt derive seed (info.address) (info.spend_txid)
                          confirmations db in
                      let moved =
                        observe_spend-IsRefreshed bolt derive seed (info.address) (info.spend_txid)
                          confirmations db in
                      elim (Result-cases (seen.0)) [
                        | inr (bad, e) ↦
                            reaches bolt derive seed db (seen.1) _ moved
                              (ground (arith, p, t, a, f, e))
                        | inl (changed, e) ↦
                            reaches bolt derive seed db (seen.1) _ moved
                              (ground (arith, p, t, a, f, e))
                      ]
                ]
              ]
            ]
          ]

      refresh_each-IsRefreshed :
          (infos : List AddressInfo) (r : Refresh) (db : Db bolt)
          → IsRefreshed bolt derive seed db
              (refresh_each_pending bolt derive seed fixed8 convert_bits decoders node walk now
                infos r db).1
      unfolding refresh_each_pending
      refresh_each-IsRefreshed [] r db = unchanged bolt derive seed db
      refresh_each-IsRefreshed (info ∷ infos) r db =
          let one =
            refresh_pending bolt derive seed fixed8 convert_bits decoders node walk now info r db in
          followed_by bolt derive seed db (one.1) _ (refresh_pending-IsRefreshed info r db)
            (refresh_each-IsRefreshed infos (one.0) (one.1))

      -- Whatever the node answers, the refresh leaves a database that a sequence of the operations
      -- that record funds, recoverable outputs and confirmed spends, and that fill the pool, leaves:
      -- it never signs, retires, or deletes a pending broadcast.
      pub refresh-IsRefreshed :
          (db : Db bolt)
          → IsRefreshed bolt derive seed db
              (refresh bolt derive seed fixed8 convert_bits decoders node walk now db).1
      unfolding refresh
      refresh-IsRefreshed db =
          let start = initial bolt derive seed db in
          let first =
            refresh_funding bolt derive seed fixed8 convert_bits decoders node walk now start db in
          let second =
            refresh_recoverable bolt derive seed fixed8 convert_bits decoders node walk now
              (first.0) (first.1) in
          followed_by bolt derive seed db (second.1) _
            (followed_by bolt derive seed db (first.1) _ (refresh_funding-IsRefreshed start db)
              (refresh_recoverable-IsRefreshed (first.0) (first.1)))
            (refresh_each-IsRefreshed (second.0.infos) (second.0) (second.1))
