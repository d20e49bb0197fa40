-- ===== src/Wallet/Outcome.antt =====
-- wallet.go: what a call of `signP2QPKInputs` leaves behind.
use symbiont_wallet.Base.{
  ℕ, ◌≡◌, ap, ◌∙◌, Bool, true, false, inl, inr, Option, [], ◌∷◌, ok, Result-cases, arith,
}
use symbiont_wallet.Base.Hex.{hex_encode}
use symbiont_wallet.Keystore.Types.{AddressRecord, RecoveryOutpoint, funded, spent, spend_pending}
use symbiont_wallet.Keystore.Types as K
use symbiont_wallet.Keystore.Bolt.{Bolt}
use symbiont_wallet.Keystore.Store.{Db}
use symbiont_wallet.Keystore.Pending.{kind_spend, kind_recovery}
use symbiont_wallet.Keystore.Outpoints.{recovery_outpoint_subset}
use symbiont_wallet.Keystore.Recovery.{recovering}
use symbiont_wallet.Keystore.Writes.Signing.{Signs, mark_spend_pending_ok, mark_recovery_pending_ok}
use symbiont_wallet.TxBuilder.TxId.{tx_id_from_bip144}
use symbiont_wallet.Wallet.Types.{Crypto, SpendParams, Details}
use symbiont_wallet.Wallet.Validate.{validate, recovery_outpoints_from}
use symbiont_wallet.Wallet.Validated.{IsFresh, IsRouted, Validated, validate_ok}
use symbiont_wallet.Wallet.Signing.{Signed, prepare, finalize, sign_p2qpk_inputs}
use symbiont_wallet.Wallet.Prepared.{Prepared, prepare_ok}

module _ (crypto : Crypto) (bolt : Bolt) where
  open crypto use {sha256}

  -- A signing that succeeds was validated, prepared and filed.
  pub signing_inversion :
      (recovery : Bool) (p : SpendParams) (details : Option Details) (now : ℕ) (db db' : Db bolt)
      (s : Signed)
      → sign_p2qpk_inputs crypto bolt recovery p details now db ≡ (ok s, db')
      → (rec : AddressRecord) × Validated crypto bolt recovery p db rec
        × Prepared crypto recovery p details now rec s
        × (finalize crypto bolt recovery p s db ≡ (ok tt, db'))
  unfolding sign_p2qpk_inputs
  signing_inversion recovery p details now db db' s h =
      elim (Result-cases (validate crypto bolt recovery p db)) [
        | inr (bad, e) ↦ absurd (ground arith)
        | inl (rec, er) ↦ elim (Result-cases (prepare crypto recovery p details now rec)) [
          | inr (bad, e) ↦ absurd (ground arith)
          | inl (s', es) ↦ elim (Result-cases ((finalize crypto bolt recovery p s' db).0)) [
            | inr (bad, e) ↦ absurd (ground arith)
            | inl (u, e) ↦
                let same : s' ≡ s = ground arith in
                (
                  rec,
                  validate_ok crypto bolt recovery p db rec er,
                  prepare_ok crypto recovery p details now rec s
                      (es ∙ ap (λ (x : Signed). ok x) same),
                  ground arith,
                )
          ]
        ]
      ]

  -- What an ordinary signing leaves behind: `from` is the source's record before it.
  abbrev pub IsSpent : SpendParams → Signed → Db bolt → Db bolt → Type 0
  IsSpent p s db db' =
      (from : AddressRecord) × (from.state ≡ funded)
      × Signs bolt (s.txid) (p.from_addr) kind_spend (p.change_addr) (s.pending ∷ []) db db' from
          (record from { state = spend_pending; spend_txid = s.txid })
      × (tx_id_from_bip144 sha256 (s.raw) ≡ ok (s.txid))
      × (s.pending.raw_hex ≡ hex_encode (s.raw))
      × IsFresh [] (p.inputs)
      × IsRouted crypto bolt (p.change_addr) (p.outputs) db

  -- A call of `SignP2QPKInputs` or `SignAndStoreP2QPKInputs` that succeeds found its source FUNDED,
  -- and in one transaction made it SPEND_PENDING under the transaction ID, filed one pending
  -- broadcast and reserved the change address, if any. The ID is the one that the signed bytes have,
  -- the filed hex is those bytes, no two inputs name one output, and the change address was FRESH,
  -- not reserved, and paid by exactly one output.
  pub sign_p2qpk_inputs_ok :
      (p : SpendParams) (details : Option Details) (now : ℕ) (db db' : Db bolt) (s : Signed)
      → sign_p2qpk_inputs crypto bolt false p details now db ≡ (ok s, db')
      → IsSpent p s db db'
  sign_p2qpk_inputs_ok p details now db db' s h =
      let (rec, v, pr, e) = signing_inversion false p details now db db' s h in
      let (from, is_funded, signs) =
        mark_spend_pending_ok bolt (p.from_addr) (p.change_addr) (s.txid) (s.pending ∷ []) db db'
          (unfold finalize in e) in
      (
        from,
        is_funded,
        signs,
        pr.identified,
        ap (λ (x : K.PendingBroadcast). x.raw_hex) (pr.filed),
        v.distinct,
        v.routed,
      )

  -- What a recovery leaves behind.
  abbrev pub IsRecovered : SpendParams → Signed → Db bolt → Db bolt → Type 0
  IsRecovered p s db db' =
      let outpoints = recovery_outpoints_from (p.inputs) (p.spent_utxos) in
      (from : AddressRecord) × (from.state ≡ spent)
      × (from.recovery_pending_outpoints ≡ [])
      × (from.has_recoverable_balance ≡ true)
      × (recovery_outpoint_subset (from.recoverable_outpoints) outpoints ≡ true)
      × Signs bolt (s.txid) (p.from_addr) kind_recovery (p.change_addr) (s.pending ∷ []) db db' from
          (recovering (s.txid) outpoints from)
      × (tx_id_from_bip144 sha256 (s.raw) ≡ ok (s.txid))
      × (s.pending.raw_hex ≡ hex_encode (s.raw))

  -- A call of `SignRecoverableP2QPKInputs` or its storing twin that succeeds found its source SPENT,
  -- with a recoverable balance, no recovery under way, and authority for every output that the
  -- inputs name, with its amount; and in one transaction it locked those outputs, filed one pending
  -- broadcast and reserved the change address, if any. The ID is the one that the signed bytes have,
  -- and the filed hex is those bytes.
  pub sign_recoverable_inputs_ok :
      (p : SpendParams) (details : Option Details) (now : ℕ) (db db' : Db bolt) (s : Signed)
      → sign_p2qpk_inputs crypto bolt true p details now db ≡ (ok s, db')
      → IsRecovered p s db db'
  sign_recoverable_inputs_ok p details now db db' s h =
      let (rec, v, pr, e) = signing_inversion true p details now db db' s h in
      let (from, is_spent, idle, balance, subset, signs) =
        mark_recovery_pending_ok bolt (p.from_addr) (p.change_addr) (s.txid)
          (recovery_outpoints_from (p.inputs) (p.spent_utxos)) (s.pending ∷ []) db db'
          (unfold finalize in e) in
      (
        from,
        is_spent,
        idle,
        balance,
        subset,
        signs,
        pr.identified,
        ap (λ (x : K.PendingBroadcast). x.raw_hex) (pr.filed),
      )
