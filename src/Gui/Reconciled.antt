-- ===== src/Gui/Reconciled.antt =====
-- main.go: when an inspection removes a pending spend, the spend is confirmed and its address SPENT.
use symbiont_wallet.Base.{
  ℕ, ◌+◌, ◌<◌, ◌≡◌, ◌⊎◌, refl, sym, subst, Bool, true, false, inl, inr, Option, none, ok,
  Bool-cases, Result-cases, arith,
}
use symbiont_wallet.Base.Bytes.{Bytes, bytes_eq}
use symbiont_wallet.Base.Int64.{ℤ, pos, ltb_ℤ, word}
use symbiont_wallet.Address.Format.{Convert}
use symbiont_wallet.Keystore.Types.{PendingBroadcast}
use symbiont_wallet.Keystore.Bolt.{Bolt}
use symbiont_wallet.Keystore.Store.{Db}
use symbiont_wallet.Keystore.Generate.{Derived}
use symbiont_wallet.Keystore.Pending.{kind_spend}
use symbiont_wallet.Keystore.Indexed.{IsIndexed}
use symbiont_wallet.Wallet.Observe.{pool_size}
use symbiont_wallet.Node.Call.{Connection}
use symbiont_wallet.Node.Call as N
use symbiont_wallet.Node.Methods.{Decoders, transaction_confirmations}
use symbiont_wallet.Gui.Pending.{
  Inspection, cleared, inspect_pending_broadcast, Error, clear_pending, reconcile, inspect_entry,
}
use symbiont_wallet.Gui.Settling.{
  SpentIn, IsSpentBy, pending_at, clear_pending_ok, reconcile_spend_cases,
}

module _ (bolt : Bolt) where
  module _ {Float : Type 0} (decoders : Decoders Float) (node : Connection) where
    -- An inspection of the entry that ended with its removal.
    abbrev pub Clears :
        PendingBroadcast → Db bolt → (Inspection N.Error Error × Bool) × Db bolt → Type 0
    Clears entry db r =
        (r.0 ≡ (cleared, false))
        × ((confirmations : ℤ) × (transaction_confirmations decoders node (entry.txid)
              ≡ ok (confirmations, true))
            × (ltb_ℤ confirmations (pos 1) ≡ false))
        × IsSpentBy bolt (entry.source_address) (entry.txid) db (r.1)
        × (pending_at bolt (entry.txid) (r.1) ≡ none)

  module _ (derive : Bytes → ℕ → Option Derived) (seed : Option Bytes) where
    module _ {Float : Type 0} (fixed8 : Float → Bytes) (decoders : Decoders Float)
        (node : Connection) (convert_bits : Convert) where
      -- For a pending spend, from a database that satisfies the invariant, where the pool can be filled
      -- without exhausting the uint64 counter: an inspection leaves the database alone, or it ends with
      -- the entry cleared, and then the node knows the transaction with at least one confirmation, the
      -- source address was SPEND_PENDING or SPENT by exactly this transaction, its record is SPENT with
      -- every other field of it kept, every other record is unchanged, and the entry is gone.
      pub inspect_entry_ok :
          (entry : PendingBroadcast) (db : Db bolt) (n : ℕ)
          → IsIndexed bolt db n
          → n + pool_size < word
          → bytes_eq (entry.kind) kind_spend ≡ true
          → let r = inspect_entry bolt derive seed fixed8 decoders node convert_bits entry db in
            (r.1 ≡ db) ⊎ Clears decoders node entry db r
      unfolding inspect_entry inspect_pending_broadcast reconcile
      inspect_entry_ok entry db n h room k =
          elim (Result-cases (transaction_confirmations decoders node (entry.txid))) [
            | inr (e, q) ↦ inl (ground arith)
            | inl ((confirmations, false), q) ↦ inl (ground arith)
            | inl ((confirmations, true), q) ↦ elim (Bool-cases (ltb_ℤ confirmations (pos 1))) [
              | inl c ↦ inl (ground arith)
              | inr c ↦
                  elim (reconcile_spend_cases bolt derive seed entry confirmations db n h room c) [
                    | inl (e, f) ↦ inl (ground arith)
                    | inr (s, f, done) ↦
                        let addr = entry.source_address in
                        let txid = entry.txid in
                        let s' = (clear_pending bolt (entry.txid) s).1 in
                        let (fine, kept, gone) =
                          clear_pending_ok bolt (entry.txid) s s'
                            (clear_pending bolt (entry.txid) s).0 refl in
                        let same : ((cleared, false), s')
                            ≡ inspect_entry bolt derive seed fixed8 decoders node convert_bits entry
                                db =
                          ground arith in
                        inr (
                          subst (Clears decoders node entry db) same (
                            refl,
                            (confirmations, q, c),
                            subst (SpentIn bolt addr txid db) (sym kept) done,
                            gone,
                          ))
                  ]
            ]
          ]
