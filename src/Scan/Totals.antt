-- ===== src/Scan/Totals.antt =====
-- balance.go: the balance of an address is what the outputs that pay its script are worth.
use symbiont_wallet.Base.{
  refl, ℕ, ◌+◌, ◌<◌, ◌≡◌, true, false, some, none, inl, inr, List, [], ◌∷◌, All, Result, ok, err,
  Result-cases, Option-cases, Bool-cases, arith, if◌then◌else◌,
}
use symbiont_wallet.Base.Bytes.{Bytes, bytes_eq, bytes_eq_iff}
use symbiont_wallet.Base.Int64.{ℤ, pos, negsuc, half_word, add64, add64_pos}
use symbiont_wallet.Base.Keys.{has_key}
use symbiont_wallet.Base.Maps.{Map, lookup, insert, get_or, lookup-insert}
use symbiont_wallet.Address.Format.{Convert}
use symbiont_wallet.Scan.Types.{ScanUnspent, ScanResult, float_qoge_to_satoshis}
use symbiont_wallet.Scan.Index.{script_hex}
use symbiont_wallet.Scan.Owners.{IsOnlyOwner, HasScript, Owns, index_addrs_ok, index_addrs_succeeds}
use symbiont_wallet.Scan.Balances.{add_balances, aggregate_balances}

-- The satoshis of a conversion that succeeds.
abbrev pub value_of : {E : Type 0} → Result E ℤ → ℕ
value_of (ok (pos n)) = n
value_of (ok (negsuc n)) = 0
value_of (err e) = 0

-- A conversion that does not yield a negative number.
abbrev pub IsNatural : {E : Type 0} → Result E ℤ → Type 0
IsNatural (ok (pos n)) = Unit
IsNatural (ok (negsuc n)) = ⊥
IsNatural (err e) = Unit

pub natural_value :
    {E : Type 0} (r : Result E ℤ) (z : ℤ) → IsNatural r → r ≡ ok z → z ≡ pos (value_of r)
natural_value (ok (pos n)) z h e = ground arith
natural_value (ok (negsuc n)) z h e = absurd h
natural_value (err e) z h k = cc

module _ {Float : Type 0} (fixed8 : Float → Bytes) where
  abbrev pub worth : ScanUnspent Float → ℕ
  worth u = value_of (float_qoge_to_satoshis fixed8 (u.amount))

  abbrev pub HasWorth : ScanUnspent Float → Type 0
  HasWorth u = IsNatural (float_qoge_to_satoshis fixed8 (u.amount))

  -- An amount that is converted.
  abbrev pub IsPriced : ScanUnspent Float → Type 0
  IsPriced u = float_qoge_to_satoshis fixed8 (u.amount) ≡ ok (pos (worth u))

  -- What the outputs that pay the script are worth together.
  abbrev pub paid_to : Bytes → List (ScanUnspent Float) → ℕ
  paid_to s [] = 0
  paid_to s (u ∷ us) = (if bytes_eq (u.script_pub_key) s then worth u else 0) + paid_to s us

  pub priced_worth : (us : List (ScanUnspent Float)) → All IsPriced us → All HasWorth us
  priced_worth [] h = tt
  priced_worth (u ∷ us) (p, ps) = (rw p tt, priced_worth us ps)

  module _ (a s : Bytes) (scripts : Map Bytes) (owns : Owns a s scripts) where
    -- An output that the table gives to another address does not pay the script.
    pub paid_elsewhere :
        (t b : Bytes) → lookup t scripts ≡ some b → bytes_eq b a ≡ false → bytes_eq t s ≡ false
    paid_elsewhere t b h k = ground (arith, owns.found, bytes_eq_iff t s, bytes_eq_iff b a)

    pub paid_here : (t b : Bytes) → lookup t scripts ≡ some b → bytes_eq b a ≡ true → t ≡ s
    paid_here t b h k = owns.alone t (ground (arith, bytes_eq_iff b a))

    pub paid_nowhere : (t : Bytes) → lookup t scripts ≡ none → bytes_eq t s ≡ false
    paid_nowhere t h = ground (arith, owns.found, bytes_eq_iff t s)

    pub add_balances_ok :
        (us : List (ScanUnspent Float)) (balances balances' : Map ℤ) (n : ℕ)
        → lookup a balances ≡ some (pos n)
        → All HasWorth us
        → n + paid_to s us < half_word
        → add_balances fixed8 scripts us balances ≡ ok balances'
        → lookup a balances' ≡ some (pos (n + paid_to s us))
    unfolding add_balances
    add_balances_ok [] balances balances' n h w b r = ground arith
    add_balances_ok (u ∷ us) balances balances' n h (w, ws) b r =
        elim (Option-cases (lookup (u.script_pub_key) scripts)) [
          | inl e ↦ ground (
            arith,
            paid_nowhere (u.script_pub_key) e,
            add_balances_ok us balances balances' n h ws,
          )
          | inr (owner, e) ↦ elim (Result-cases (float_qoge_to_satoshis fixed8 (u.amount))) [
            | inr (bad, eb) ↦ absurd (ground arith)
            | inl (z, ez) ↦ elim (Bool-cases (bytes_eq owner a)) [
              | inl here ↦
                  let m = n + worth u in
                  let now =
                    insert owner (add64 (get_or (pos 0) (lookup owner balances)) z) balances in
                  ground (
                    arith,
                    natural_value (float_qoge_to_satoshis fixed8 (u.amount)) z w ez,
                    paid_here (u.script_pub_key) owner e here,
                    bytes_eq_iff owner a,
                    bytes_eq_iff (u.script_pub_key) s,
                    add64_pos n (worth u),
                    lookup-insert a owner (add64 (get_or (pos 0) (lookup owner balances)) z)
                        balances,
                    add_balances_ok us now balances' m,
                  )
              | inr away ↦
                  let now =
                    insert owner (add64 (get_or (pos 0) (lookup owner balances)) z) balances in
                  ground (
                    arith,
                    paid_elsewhere (u.script_pub_key) owner e away,
                    bytes_eq_iff owner a,
                    bytes_eq_iff a owner,
                    lookup-insert a owner (add64 (get_or (pos 0) (lookup owner balances)) z)
                        balances,
                    add_balances_ok us now balances' n,
                  )
            ]
          ]
        ]

    pub add_balances_succeeds :
        (us : List (ScanUnspent Float)) (balances : Map ℤ)
        → All IsPriced us
        → (balances' : Map ℤ) × (add_balances fixed8 scripts us balances ≡ ok balances')
    unfolding add_balances
    add_balances_succeeds [] balances p = (balances, refl)
    add_balances_succeeds (u ∷ us) balances (p, ps) =
        elim (Option-cases (lookup (u.script_pub_key) scripts)) [
          | inl e ↦ let (m, em) = add_balances_succeeds us balances ps in (m, ground arith)
          | inr (owner, e) ↦
              let (m, em) =
                add_balances_succeeds us
                  (insert owner (add64 (get_or (pos 0) (lookup owner balances)) (pos (worth u)))
                    balances)
                  ps in
              (m, ground (arith, p))
        ]

  module _ (convert_bits : Convert) (result : ScanResult Float) (addrs : List Bytes) where
    -- When every address decodes and every amount converts, `AggregateBalances` returns a table, and
    -- an address of the list, the only one with its script, has there what the outputs that pay the
    -- script are worth, as long as that is an int64.
    pub aggregate_balances_total :
        (a s : Bytes)
        → has_key a addrs ≡ true
        → script_hex convert_bits a ≡ ok s
        → IsOnlyOwner convert_bits a s addrs
        → All (HasScript convert_bits) addrs
        → All IsPriced (result.unspents)
        → paid_to s (result.unspents) < half_word
        → (balances : Map ℤ) × (aggregate_balances fixed8 convert_bits result addrs ≡ ok balances)
          × (lookup a balances ≡ some (pos (paid_to s (result.unspents))))
    unfolding aggregate_balances
    aggregate_balances_total a s listed script own valid priced bound =
        let ((scripts, started), et) =
          index_addrs_succeeds convert_bits (pos 0) addrs [] [] valid in
        let (owns, begun) =
          index_addrs_ok convert_bits (pos 0) a s addrs scripts started listed own script et in
        let (balances, eb) =
          add_balances_succeeds a s scripts owns (result.unspents) started priced in
        let total =
          add_balances_ok a s scripts owns (result.unspents) started balances 0 begun
            (priced_worth (result.unspents) priced) (omega arith) eb in
        (balances, ground (arith, et, eb), ground (arith, total))
