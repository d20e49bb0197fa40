-- ===== src/Wallet/Money.antt =====
-- wallet.go: the amounts of a signed transaction.
use symbiont_wallet.Base.{
  ℕ, ◌+◌, ◌-◌, ◌≤◌, ◌<◌, ◌≡◌, ap, ◌∙◌, Bool, false, some, List, [], ◌∷◌, All, All-both, ok, arith,
}
use symbiont_wallet.Base.Int64.{
  ℤ, pos, negsuc, pos_part, IsInt64, half_word, add64, sub64, ltb_ℤ, eq_ℤ_eq, add64_pos, sub64_pos,
}
use symbiont_wallet.Keystore.Types.{AddressRecord}
use symbiont_wallet.Keystore.Types as K
use symbiont_wallet.Keystore.Bolt.{Bolt}
use symbiont_wallet.Keystore.Store.{Db}
use symbiont_wallet.TxBuilder.Types.{TxOutput}
use symbiont_wallet.TxBuilder.Fees.{max_int64}
use symbiont_wallet.Wallet.Types.{
  Crypto, SpendParams, Details, Error, input_total_overflows, output_total_overflows,
}
use symbiont_wallet.Wallet.Validated.{IsSpendable, IsPayable}
use symbiont_wallet.Wallet.Signing.{
  total_of, first_output, choose_metadata, Signed, sign_p2qpk_inputs,
}
use symbiont_wallet.Wallet.Outcome.{signing_inversion}

-- What the outputs are worth.
abbrev pub sum_of : List TxOutput → ℕ
sum_of [] = 0
sum_of (o ∷ os) = pos_part (o.amount) + sum_of os

abbrev pub HasAmount : TxOutput → Type 0
HasAmount o = IsInt64 (o.amount)

abbrev pub IsAmount : TxOutput → Type 0
IsAmount o = IsInt64 (o.amount) × (ltb_ℤ (o.amount) (pos 0) ≡ false)

add_fits :
    (a : ℤ) (t : ℕ)
    → IsInt64 a
    → ltb_ℤ a (pos 0) ≡ false
    → t < half_word
    → ltb_ℤ (sub64 (pos max_int64) a) (pos t) ≡ false
    → (t + pos_part a < half_word) × (add64 (pos t) a ≡ pos (t + pos_part a))
add_fits (pos n) t hi hp ht h = ground (arith, sub64_pos max_int64 n, add64_pos t n)
add_fits (negsuc n) t hi hp ht h = absurd (ground arith)

-- A guarded sum that succeeds is the sum.
total_of_ok :
    (e : Error) (t : ℕ) (os : List TxOutput) (s : ℤ)
    → t < half_word
    → All IsAmount os
    → total_of e (pos t) os ≡ ok s
    → (s ≡ pos (t + sum_of os)) × (t + sum_of os < half_word)
unfolding total_of
total_of_ok e t [] s ht hs h = ground arith
total_of_ok e t (o ∷ os) s ht ((hi, hp), hs) h =
    let (bound, et) = add_fits (o.amount) t hi hp ht (ground arith) in
    let (total, small) =
      total_of_ok e (t + pos_part (o.amount)) os s bound hs (ground (arith, et)) in
    (ground (arith, total), omega (arith, small))

spendable_amounts :
    (script : List ℕ) (us : List TxOutput)
    → All HasAmount us
    → All (IsSpendable script) us
    → All IsAmount us
spendable_amounts script us h k = All-both (λ u hi hs. (hi, ground (arith, hs))) us h k

payable_amounts : (os : List TxOutput) → All HasAmount os → All IsPayable os → All IsAmount os
payable_amounts os h k = All-both (λ o hi hp. (hi, hp)) os h k

-- What the chosen metadata say of the amounts.
metadata_of :
    (d d' : Details) (first : TxOutput) (i o : ℕ)
    → i < half_word
    → choose_metadata (some d) first (pos i) (pos o) ≡ ok d'
    → (d' ≡ d) × (d.fee_sats ≡ pos (i - o)) × (o ≤ i) × (d.amount_sats ≡ first.amount)
unfolding choose_metadata
metadata_of d d' first i o hi h = ground (
  arith,
  sub64_pos i o,
  eq_ℤ_eq (d.fee_sats) (sub64 (pos i) (pos o)),
  eq_ℤ_eq (d.amount_sats) (first.amount),
)

-- What goes in comes out as outputs and fee, and the filed amounts are the transaction's.
abbrev pub IsBalanced : SpendParams → K.PendingBroadcast → Type 0
IsBalanced p filed =
    (fee : ℕ) × (filed.fee_sats ≡ pos fee)
    × (sum_of (p.spent_utxos) ≡ sum_of (p.outputs) + fee)
    × (sum_of (p.spent_utxos) < half_word)
    × (filed.amount_sats ≡ (first_output (p.outputs)).amount)

-- When the caller hands in the details to file, as the storing entry points do, and all amounts are
-- int64, a signing that succeeds has inputs worth exactly the outputs and the fee that is filed,
-- without overflow, and files the amount of the first output.
pub sign_p2qpk_inputs-IsBalanced :
    (crypto : Crypto) (bolt : Bolt) (recovery : Bool) (p : SpendParams) (d : Details) (now : ℕ)
    (db db' : Db bolt) (s : Signed)
    → All HasAmount (p.spent_utxos)
    → All HasAmount (p.outputs)
    → sign_p2qpk_inputs crypto bolt recovery p (some d) now db ≡ (ok s, db')
    → IsBalanced p (s.pending)
sign_p2qpk_inputs-IsBalanced crypto bolt recovery p d now db db' s hu ho h =
    let (rec, v, pr, _) = signing_inversion crypto bolt recovery p (some d) now db db' s h in
    let (ei, small) =
      total_of_ok input_total_overflows 0 (p.spent_utxos) (pr.total_input) (omega arith)
        (spendable_amounts (v.script) (p.spent_utxos) hu (v.spendable)) (pr.added) in
    let (eo, _) =
      total_of_ok output_total_overflows 0 (p.outputs) (pr.total_output) (omega arith)
        (payable_amounts (p.outputs) ho (v.payable)) (pr.spent_added) in
    let i = 0 + sum_of (p.spent_utxos) in
    let o = 0 + sum_of (p.outputs) in
    let described : choose_metadata (some d) (first_output (p.outputs)) (pos i) (pos o)
        ≡ ok (pr.metadata) =
      ground (arith, ei, eo, pr.described) in
    let (same, fee, le, amount) =
      metadata_of d (pr.metadata) (first_output (p.outputs)) i o small described in
    (
      i - o,
      ap (λ (x : K.PendingBroadcast). x.fee_sats) (pr.filed)
          ∙ ap (λ (x : Details). x.fee_sats) same
          ∙ fee,
      omega (arith, le),
      omega (arith, small),
      ap (λ (x : K.PendingBroadcast). x.amount_sats) (pr.filed)
          ∙ ap (λ (x : Details). x.amount_sats) same
          ∙ amount,
    )
