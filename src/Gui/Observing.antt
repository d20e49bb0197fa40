-- ===== src/Gui/Observing.antt =====
-- wallet.go and history.go: each of the node's observations is a sequence of the operations of
-- `KeyIndex` that record what the node reports.
use symbiont_wallet.Base.{
  ℕ, ◌≡◌, refl, ap, ◌∙◌, not, ◌&&◌, ◌||◌, inl, inr, Option, List, [], ◌∷◌, ◌++◌, All, All-append,
  map, Bool-cases, Result-cases, arith,
}
use symbiont_wallet.Base.Bytes.{Bytes, bytes_eq}
use symbiont_wallet.Base.Int64.{ℤ, pos, leb_ℤ, ltb_ℤ}
use symbiont_wallet.Keystore.Types.{RecoveryOutpoint, spend_pending, state_eq}
use symbiont_wallet.Keystore.Bolt.{Bolt}
use symbiont_wallet.Keystore.Store.{Db}
use symbiont_wallet.Keystore.Generate.{Derived}
use symbiont_wallet.Keystore.Lifecycle.{mark_spent}
use symbiont_wallet.Keystore.Recovery.{observe_recoverable_outpoints}
use symbiont_wallet.Keystore.History.{mark_funded_and_record_incoming}
use symbiont_wallet.Keystore.Pending.{is_empty}
use symbiont_wallet.Keystore.Queries.{get_record}
use symbiont_wallet.Keystore.Operations.{
  Operation, pre_generate_op, fund_with_history_op, observe_op, mark_spent_op, apply, run,
}
use symbiont_wallet.Wallet.Observe.{
  IncomingDeposit, incoming_record, pool_size, funding_min_confirmations,
  observe_funding_with_history, observe_recoverable_balance, on_confirmation,
  observe_spend_confirmation,
}

-- The operations that record what the node reports, or that fill the pool.
abbrev pub IsObservation : Operation → Type 0
IsObservation (fund_with_history_op addr balance incoming) = Unit
IsObservation (pre_generate_op n) = Unit
IsObservation (observe_op addr current mature) = Unit
IsObservation (mark_spent_op addr) = Unit
IsObservation _ = ⊥

module _ (bolt : Bolt) (derive : Bytes → ℕ → Option Derived) (seed : Option Bytes) where
  -- Observations, one after the other, take `db` to `db'`.
  abbrev pub IsRefreshed : Db bolt → Db bolt → Type 0
  IsRefreshed db db' =
      (ops : List Operation) × All IsObservation ops × (run bolt derive seed ops db ≡ db')

  pub unchanged : (db : Db bolt) → IsRefreshed db db
  unfolding run
  unchanged db = ([], tt, refl)

  run-++ :
      (ops more : List Operation) (db : Db bolt)
      → run bolt derive seed (ops ++ more) db
        ≡ run bolt derive seed more (run bolt derive seed ops db)
  unfolding run
  run-++ [] more db = refl
  run-++ (op ∷ ops) more db = run-++ ops more (apply bolt derive seed op db)

  pub followed_by :
      (db db1 db2 : Db bolt) → IsRefreshed db db1 → IsRefreshed db1 db2 → IsRefreshed db db2
  followed_by db db1 db2 (ops, allowed, e) (more, allowed', e') = (
    ops ++ more,
    All-append IsObservation ops more allowed allowed',
    run-++ ops more db ∙ ap (run bolt derive seed more) e ∙ e',
  )

  pub reaches : (db db1 db2 : Db bolt) → IsRefreshed db db1 → db1 ≡ db2 → IsRefreshed db db2
  reaches db db1 db2 (ops, allowed, e) same = (ops, allowed, e ∙ same)

  pub observe_funding-IsRefreshed :
      (addr : Bytes) (balance confirmations : ℤ) (deposits : List IncomingDeposit) (now : ℕ)
      (db : Db bolt)
      → IsRefreshed db
          (observe_funding_with_history bolt derive seed addr balance confirmations deposits now
            db).1
  unfolding observe_funding_with_history run apply
  observe_funding-IsRefreshed addr balance confirmations deposits now db =
      let incoming = map (incoming_record addr now) deposits in
      elim (Bool-cases (leb_ℤ balance (pos 0) || ltb_ℤ confirmations funding_min_confirmations)) [
        | inl c ↦ ([], tt, ground (arith, c))
        | inr c ↦
            elim (Result-cases
              ((mark_funded_and_record_incoming bolt addr balance incoming db).0)) [
                | inr (bad, e) ↦ (
                  fund_with_history_op addr balance incoming ∷ [],
                  (tt, tt),
                  ground (arith, c, e),
                )
                | inl (u, e) ↦ (
                  fund_with_history_op addr balance incoming ∷ pre_generate_op pool_size ∷ [],
                  (tt, (tt, tt)),
                  ground (arith, c, e),
                )
              ]
      ]

  pub observe_recoverable-IsRefreshed :
      (addr : Bytes) (balance confirmations : ℤ) (outpoints : List RecoveryOutpoint) (db : Db bolt)
      → IsRefreshed db
          (observe_recoverable_balance bolt derive seed addr balance confirmations outpoints db).1
  unfolding observe_recoverable_balance run apply
  observe_recoverable-IsRefreshed addr balance confirmations outpoints db =
      let mature = ltb_ℤ (pos 0) balance && leb_ℤ funding_min_confirmations confirmations in
      let seen = observe_recoverable_outpoints bolt addr outpoints mature db in
      elim (Result-cases (seen.0)) [
        | inr (bad, e) ↦ (observe_op addr outpoints mature ∷ [], (tt, tt), ground (arith, e))
        | inl (u, e) ↦ (observe_op addr outpoints mature ∷ [], (tt, tt), ground (arith, e))
      ]

  on_confirmation-IsRefreshed :
      (addr : Bytes) (confirmations : ℤ) (db : Db bolt)
      → IsRefreshed db (on_confirmation bolt derive seed addr confirmations db).1
  unfolding on_confirmation run apply
  on_confirmation-IsRefreshed addr confirmations db =
      elim (Bool-cases (ltb_ℤ confirmations (pos 1))) [
        | inl c ↦ ([], tt, ground (arith, c))
        | inr c ↦ elim (Result-cases ((mark_spent bolt addr db).0)) [
          | inr (bad, e) ↦ (mark_spent_op addr ∷ [], (tt, tt), ground (arith, c, e))
          | inl (u, e) ↦ (
            mark_spent_op addr ∷ pre_generate_op pool_size ∷ [],
            (tt, (tt, tt)),
            ground (arith, c, e),
          )
        ]
      ]

  pub observe_spend-IsRefreshed :
      (addr txid : Bytes) (confirmations : ℤ) (db : Db bolt)
      → IsRefreshed db (observe_spend_confirmation bolt derive seed addr txid confirmations db).1
  unfolding observe_spend_confirmation
  observe_spend-IsRefreshed addr txid confirmations db =
      let seen = on_confirmation bolt derive seed addr confirmations db in
      let moved = on_confirmation-IsRefreshed addr confirmations db in
      elim (Result-cases (get_record bolt addr db)) [
        | inr (bad, a) ↦ reaches db db _ (unchanged db) (ground (arith, a))
        | inl (rec, a) ↦ elim (Bool-cases (not (state_eq (rec.state) spend_pending))) [
          | inl s ↦ reaches db db _ (unchanged db) (ground (arith, a, s))
          | inr s ↦
              elim (Bool-cases
                (is_empty (rec.spend_txid) || not (bytes_eq (rec.spend_txid) txid))) [
                  | inl t ↦ reaches db db _ (unchanged db) (ground (arith, a, s, t))
                  | inr t ↦ elim (Bool-cases (ltb_ℤ confirmations (pos 1))) [
                    | inl c ↦ reaches db db _ (unchanged db) (ground (arith, a, s, t, c))
                    | inr c ↦ elim (Result-cases (seen.0)) [
                      | inr (bad, e) ↦ reaches db (seen.1) _ moved (ground (arith, a, s, t, c, e))
                      | inl (u, e) ↦ reaches db (seen.1) _ moved (ground (arith, a, s, t, c, e))
                    ]
                  ]
                ]
        ]
      ]
