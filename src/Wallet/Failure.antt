-- ===== src/Wallet/Failure.antt =====
-- wallet.go: a call of `signP2QPKInputs` that fails.
use symbiont_wallet.Base.{ℕ, ◌≡◌, Bool, true, false, inl, inr, Option, err, Result-cases, arith}
use symbiont_wallet.Keystore.Types.{AddressRecord}
use symbiont_wallet.Keystore.Types as K
use symbiont_wallet.Keystore.Bolt.{Bolt}
use symbiont_wallet.Keystore.Store.{Db}
use symbiont_wallet.Keystore.Transaction.{Tx, update}
use symbiont_wallet.Keystore.Lifecycle.{mark_spend_pending}
use symbiont_wallet.Keystore.Recovery.{mark_recovery_pending}
use symbiont_wallet.Wallet.Types.{Crypto, SpendParams, Details, Error}
use symbiont_wallet.Wallet.Validate.{validate}
use symbiont_wallet.Wallet.Signing.{Signed, prepare, finalize, sign_p2qpk_inputs}

update_err :
    {S A : Type 0} (m : Tx S A) (db db' : S) (e : K.Error) → update m db ≡ (err e, db') → db' ≡ db
unfolding update
update_err m db db' e h = elim (Result-cases (m db)) [
  | inl ((a, s), e') ↦ absurd (ground arith)
  | inr (bad, e') ↦ ground arith
]

module _ (crypto : Crypto) (bolt : Bolt) where
  finalize_err :
      (recovery : Bool) (p : SpendParams) (s : Signed) (db db' : Db bolt) (e : K.Error)
      → finalize crypto bolt recovery p s db ≡ (err e, db')
      → db' ≡ db
  unfolding finalize mark_spend_pending mark_recovery_pending
  finalize_err true p s db db' e h = update_err _ db db' e h
  finalize_err false p s db db' e h = update_err _ db db' e h

  -- A signing that returns an error has changed nothing in the keystore, whichever check, signature
  -- or write failed: the source can be signed for again.
  pub sign_p2qpk_inputs_err :
      (recovery : Bool) (p : SpendParams) (details : Option Details) (now : ℕ) (db db' : Db bolt)
      (e : Error)
      → sign_p2qpk_inputs crypto bolt recovery p details now db ≡ (err e, db')
      → db' ≡ db
  unfolding sign_p2qpk_inputs
  sign_p2qpk_inputs_err recovery p details now db db' e h =
      elim (Result-cases (validate crypto bolt recovery p db)) [
        | inr (bad, ev) ↦ ground arith
        | inl (rec, ev) ↦ elim (Result-cases (prepare crypto recovery p details now rec)) [
          | inr (bad, ep) ↦ ground arith
          | inl (s, ep) ↦ elim (Result-cases ((finalize crypto bolt recovery p s db).0)) [
            | inl (u, ef) ↦ absurd (ground arith)
            | inr (bad, ef) ↦ finalize_err recovery p s db db' bad (ground arith)
          ]
        ]
      ]
