-- ===== src/Base/Results.antt =====
-- Go's `(value, error)` pairs, read as one value: `ok` carries the value, `err` the error.
use mathlib.Core.Path.{◌≡◌, refl}
use mathlib.Core.Bool.{Bool, true, false}
use mathlib.Core.Logic.{◌⊎◌, inl, inr}

pub data Result {ℓ} (E : Type 0) (A : Type ℓ) : Type ℓ where
  ok : A → Result E A
  err : E → Result E A

module _ {E : Type 0} where
  -- `if bad { return err }`.
  abbrev pub fail_if : Bool → E → Result E (Unit {0})
  fail_if false why = ok tt
  fail_if true why = err why

  module _ {ℓ} {A : Type ℓ} where
    abbrev pub is_ok : Result E A → Bool
    is_ok (err why) = false
    is_ok (ok value) = true

    -- What a call returned, either way.
    pub Result-cases :
        (r : Result E A) → ((value : A) × (r ≡ ok value)) ⊎ ((why : E) × (r ≡ err why))
    Result-cases (err why) = inr (why, refl)
    Result-cases (ok value) = inl (value, refl)

  module _ {κ} {B : Type κ} where
    infixl 5 ◌>>=◌ ◌>>◌
    -- The next call is made when this one gave no error.
    abbrev pub ◌>>=◌ {ℓ} : {A : Type ℓ} → Result E A → (A → Result E B) → Result E B
    err why >>= next = err why
    ok value >>= next = next value

    abbrev pub ◌>>◌ : Result E (Unit {0}) → Result E B → Result E B
    ◌>>◌ checked next = checked >>= λ _. next
