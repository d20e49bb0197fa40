-- ===== src/Keystore/Transaction.antt =====
-- The body of a bbolt transaction as a state monad with errors, and `db.Update` with its rollback.
use symbiont_wallet.Base.{Bool, Result, ok, err, if◌then◌else◌}
use symbiont_wallet.Keystore.Types.{Error}

-- A body ends with an error, or with a value and the buckets it wrote.
abbrev pub Tx : Type 0 → Type 0 → Type 0
Tx S A = S → Result Error (A × S)

module _ {S : Type 0} where
  infixl 5 ◌>>=◌ ◌>>◌
  unfoldable pub ◌>>=◌ : {A B : Type 0} → Tx S A → (A → Tx S B) → Tx S B
  ◌>>=◌ m f db = elim (m db) [ ok (a, db') ↦ f a db' | err e ↦ err e ]

  abbrev pub ◌>>◌ : {A B : Type 0} → Tx S A → Tx S B → Tx S B
  m >> k = m >>= λ _. k

  unfoldable pub pure : {A : Type 0} → A → Tx S A
  pure a db = ok (a, db)

  unfoldable pub fail : {A : Type 0} → Error → Tx S A
  fail e db = err e

  -- `if bad { return err }`.
  unfoldable pub fail_when : Bool → Error → Tx S (Unit {0})
  fail_when bad e db = if bad then err e else ok (tt, db)

  -- `db.Update`: an error rolls everything back.
  unfoldable pub update : {A : Type 0} → Tx S A → S → Result Error A × S
  update m db = elim (m db) [ ok (a, db') ↦ (ok a, db') | err e ↦ (err e, db) ]
