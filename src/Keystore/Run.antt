-- ===== src/Keystore/Run.antt =====
-- Any sequence of operations of `KeyIndex`, failed ones included, from any database that satisfies
-- the invariant.
use symbiont_wallet.Base.{ℕ, ◌+◌, ◌≤◌, ◌<◌, ◌≡◌, Option, some, List, [], ◌∷◌, arith}
use symbiont_wallet.Base.Bytes.{Bytes}
use symbiont_wallet.Base.Int64.{word}
use symbiont_wallet.Keystore.Types.{AddressRecord}
use symbiont_wallet.Keystore.Bolt.{Bolt, lookup}
use symbiont_wallet.Keystore.Store.{Db}
use symbiont_wallet.Keystore.Generate.{Derived}
use symbiont_wallet.Keystore.Operations.{
  Operation, generate_op, pre_generate_op, mark_funded_op, fund_with_history_op,
  mark_spend_pending_op, observe_op, mark_recovery_pending_op, mark_spent_op, retire_op,
  put_transaction_op, delete_pending_op, apply, run, births, total_births,
}
use symbiont_wallet.Keystore.Inversion.{rows}
use symbiont_wallet.Keystore.Steps.{Evolves-Persists}
use symbiont_wallet.Keystore.Life.{OneWay, Reach-OneWay}
use symbiont_wallet.Keystore.Evolution.{
  DbEvolves, mark_funded-DbEvolves, fund_with_history-DbEvolves, mark_spend_pending-DbEvolves,
  mark_recovery_pending-DbEvolves, observe-DbEvolves, mark_spent-DbEvolves, retire-DbEvolves,
  put_transaction-DbEvolves, delete_pending-DbEvolves,
}
use symbiont_wallet.Keystore.Indexed.{
  IsIndexed, DbEvolves-IsIndexed, GrewBy, GrewBy-same, GrewBy-refl, GrewBy-trans,
  generate_address-GrewBy, pre_generate-GrewBy,
}

module _ (bolt : Bolt) (derive : Bytes → ℕ → Option Derived) (seed : Option Bytes) where
  evolved :
      (db s : Db bolt) (n : ℕ) → IsIndexed bolt db n → DbEvolves bolt db s → GrewBy bolt db n 0 s
  evolved db s n h e =
      GrewBy-same bolt db s n 0 (DbEvolves-IsIndexed bolt db s n e h) (Evolves-Persists _ _ e.0)

  apply-GrewBy :
      (op : Operation) (db : Db bolt) (n : ℕ)
      → IsIndexed bolt db n
      → n + births op < word
      → GrewBy bolt db n (births op) (apply bolt derive seed op db)
  unfolding apply
  apply-GrewBy generate_op db n h room = generate_address-GrewBy bolt derive seed db n h room
  apply-GrewBy (pre_generate_op k) db n h room = pre_generate-GrewBy bolt derive k seed db n h room
  apply-GrewBy (mark_funded_op addr) db n h room =
      evolved db _ n h (mark_funded-DbEvolves bolt addr db)
  apply-GrewBy (fund_with_history_op addr balance incoming) db n h room =
      evolved db _ n h (fund_with_history-DbEvolves bolt addr balance incoming db)
  apply-GrewBy (mark_spend_pending_op from change txid pending) db n h room =
      evolved db _ n h (mark_spend_pending-DbEvolves bolt from change txid pending db)
  apply-GrewBy (observe_op addr current mature) db n h room =
      evolved db _ n h (observe-DbEvolves bolt addr current mature db)
  apply-GrewBy (mark_recovery_pending_op from change txid outpoints pending) db n h room =
      evolved db _ n h (mark_recovery_pending-DbEvolves bolt from change txid outpoints pending db)
  apply-GrewBy (mark_spent_op addr) db n h room =
      evolved db _ n h (mark_spent-DbEvolves bolt addr db)
  apply-GrewBy (retire_op addr) db n h room = evolved db _ n h (retire-DbEvolves bolt addr db)
  apply-GrewBy (put_transaction_op rec) db n h room =
      evolved db _ n h (put_transaction-DbEvolves bolt rec db)
  apply-GrewBy (delete_pending_op txid) db n h room =
      evolved db _ n h (delete_pending-DbEvolves bolt txid db)

  run-GrewBy :
      (ops : List Operation) (db : Db bolt) (n : ℕ)
      → IsIndexed bolt db n
      → n + total_births ops < word
      → GrewBy bolt db n (total_births ops) (run bolt derive seed ops db)
  unfolding run
  run-GrewBy [] db n h room = GrewBy-refl bolt db n 0 h
  run-GrewBy (op ∷ ops) db n h room =
      let g = apply-GrewBy op db n h (omega arith) in
      GrewBy-trans bolt db _ _ n _ (births op) (total_births ops) (omega arith) g
        (run-GrewBy ops _ g.count g.indexed (omega (arith, g.bounded)))

  -- From a database that satisfies the invariant with counter `n`, any operations that cannot
  -- exhaust the uint64 counter leave a database that satisfies it too, with a counter that is not
  -- lower and has risen by at most the number of addresses asked for.
  pub run-IsIndexed :
      (ops : List Operation) (db : Db bolt) (n : ℕ)
      → IsIndexed bolt db n
      → n + total_births ops < word
      → (m : ℕ) × (n ≤ m)
        × (m ≤ n + total_births ops)
        × IsIndexed bolt (run bolt derive seed ops db) m
  run-IsIndexed ops db n h room =
      let g = run-GrewBy ops db n h room in (g.count, g.rises, g.bounded, g.indexed)

  -- From a database that satisfies the invariant `IsIndexed` with counter `n`, after any operations
  -- that cannot exhaust the uint64 counter, every record that was stored is still stored at its key
  -- and has only gone forward: its index, address and public key are the same, its state is the
  -- same or a later one, RETIRED changes nothing more, the encrypted key is the same until RETIRED
  -- and empty from then on, and once the address was signed for, its transaction ID is fixed.
  pub run-OneWay :
      (ops : List Operation) (db : Db bolt) (n : ℕ) (key : Bytes) (rec : AddressRecord)
      → IsIndexed bolt db n
      → n + total_births ops < word
      → lookup key (rows bolt db) ≡ some rec
      → (rec' : AddressRecord) × (lookup key (rows bolt (run bolt derive seed ops db)) ≡ some rec')
        × OneWay rec rec'
  run-OneWay ops db n key rec h room e =
      let g = run-GrewBy ops db n h room in
      let (rec', e', p) = g.persists key rec e in (rec', e', Reach-OneWay p)
