-- ===== src/Wallet/Validated.antt =====
-- wallet.go: what the checks of `signP2QPKInputs` make sure of.
use symbiont_wallet.Base.{
  ◌≤◌, ◌<◌, ◌≡◌, refl, Bool, true, false, not, inl, inr, List, [], ◌∷◌, length, All, ok,
  Result-cases, arith,
}
use symbiont_wallet.Base.Bytes.{Bytes, bytes_eq_iff}
use symbiont_wallet.Base.Int64.{ℤ, pos, leb_ℤ, ltb_ℤ}
use symbiont_wallet.Keystore.Types.{AddressRecord, fresh, state_eq}
use symbiont_wallet.Keystore.Types as K
use symbiont_wallet.Keystore.Bolt.{Bolt}
use symbiont_wallet.Keystore.Store.{Db}
use symbiont_wallet.Keystore.Queries.{get_record}
use symbiont_wallet.TxBuilder.Types.{TxInput, TxOutput}
use symbiont_wallet.TxBuilder.Size.{
  p2qpk_virtual_size, validate_standard_transaction, safe_max_inputs, max_standard_vsize,
}
use symbiont_wallet.Wallet.Types.{Crypto, SpendParams}
use symbiont_wallet.Wallet.Sighash.{p2qpk_script_pub_key}
use symbiont_wallet.Wallet.Validate.{
  recovery_outpoints_from, seen_prevout, check_spent, check_outputs, count_matches, check_source,
  check_recovery_outpoints, check_change, check_size, validate,
}

-- Every spent output pays the source's script, and something.
abbrev pub IsSpendable : Bytes → TxOutput → Type 0
IsSpendable script u = (leb_ℤ (u.amount) (pos 0) ≡ false) × (u.script ≡ script)

check_spent_ok :
    (script : Bytes) (seen inputs : List TxInput) (us : List TxOutput)
    → check_spent script seen inputs us ≡ ok tt
    → All (IsSpendable script) us
unfolding check_spent
check_spent_ok script seen inputs [] h = tt
check_spent_ok script seen [] (u ∷ us) h = absurd (ground arith)
check_spent_ok script seen (i ∷ is) (u ∷ us) h = (
  (ground arith, ground (arith, bytes_eq_iff (u.script) script)),
  check_spent_ok script (i ∷ seen) is us (ground arith),
)

abbrev pub IsPayable : TxOutput → Type 0
IsPayable o = ltb_ℤ (o.amount) (pos 0) ≡ false

check_outputs_ok : (os : List TxOutput) → check_outputs os ≡ ok tt → All IsPayable os
unfolding check_outputs
check_outputs_ok [] h = tt
check_outputs_ok (o ∷ os) h = (ground arith, check_outputs_ok os (ground arith))

-- No two inputs name one output.
abbrev pub IsFresh : List TxInput → List TxInput → Type 0
IsFresh seen [] = Unit {0}
IsFresh seen (i ∷ is) = (seen_prevout i seen ≡ false) × IsFresh (i ∷ seen) is

check_spent-IsFresh :
    (script : Bytes) (seen inputs : List TxInput) (us : List TxOutput)
    → length inputs ≡ length us
    → check_spent script seen inputs us ≡ ok tt
    → IsFresh seen inputs
unfolding check_spent
check_spent-IsFresh script seen [] us e h = tt
check_spent-IsFresh script seen (i ∷ is) [] e h = absurd (omega arith)
check_spent-IsFresh script seen (i ∷ is) (u ∷ us) e h =
    (ground arith, check_spent-IsFresh script (i ∷ seen) is us (omega arith) (ground arith))

-- What is true of the change address, if there is one.
module _ (crypto : Crypto) (bolt : Bolt) where
  abbrev pub IsRouted : Bytes → List TxOutput → Db bolt → Type 0
  IsRouted [] outputs db = length outputs ≡ 1
  IsRouted (c ∷ cs) outputs db =
      (rec : AddressRecord) × (script : Bytes) × (get_record bolt (c ∷ cs) db ≡ ok rec)
      × (rec.state ≡ fresh)
      × (rec.reserved ≡ false)
      × (p2qpk_script_pub_key crypto (c ∷ cs) ≡ ok script)
      × (count_matches script outputs ≡ 1)

  is_fresh : (s : K.AddressState) → not (state_eq s fresh) ≡ false → s ≡ fresh
  is_fresh K.fresh h = refl
  is_fresh K.funded h = absurd (ground arith)
  is_fresh K.spend_pending h = absurd (ground arith)
  is_fresh K.spent h = absurd (ground arith)
  is_fresh K.retired h = absurd (ground arith)

  check_change_ok :
      (addr : Bytes) (outputs : List TxOutput) (db : Db bolt)
      → check_change crypto bolt addr outputs db ≡ ok tt
      → IsRouted addr outputs db
  unfolding check_change
  check_change_ok [] outputs db h = ground arith
  check_change_ok (c ∷ cs) outputs db h = elim (Result-cases (get_record bolt (c ∷ cs) db)) [
    | inr (bad, e) ↦ absurd (ground arith)
    | inl (rec, e) ↦ elim (Result-cases (p2qpk_script_pub_key crypto (c ∷ cs))) [
      | inr (bad, e') ↦ absurd (ground arith)
      | inl (script, e') ↦
          (rec, script, e, is_fresh (rec.state) (ground arith), ground arith, e', ground arith)
    ]
  ]

  check_size_ok :
      (p : SpendParams)
      → check_size crypto bolt p ≡ ok tt
      → (vsize : ℤ) × (p2qpk_virtual_size (pos (length (p.inputs))) (p.outputs) ≡ ok vsize)
        × (length (p.inputs) ≤ safe_max_inputs)
        × (leb_ℤ vsize (pos max_standard_vsize) ≡ true)
  check_size_ok p h =
      elim (Result-cases (p2qpk_virtual_size (pos (length (p.inputs))) (p.outputs))) [
        | inr (bad, e) ↦ absurd (unfold validate_standard_transaction in ground arith)
        | inl (vsize, e) ↦
            unfold validate_standard_transaction in (vsize, e, ground arith, ground arith)
      ]

  -- Everything that the checks establish of the source's record `rec`.
  pub record Validated (recovery : Bool) (p : SpendParams) (db : Db bolt) (rec : AddressRecord)
      : Type 0 where
    pub script : Bytes
    pub found : get_record bolt (p.from_addr) db ≡ ok rec
    pub allowed : check_source recovery rec ≡ ok tt
    pub some_inputs : 0 < length (p.inputs)
    pub same_length : length (p.inputs) ≡ length (p.spent_utxos)
    pub in_bounds : p.input_index < length (p.inputs)
    pub authorized :
        check_recovery_outpoints recovery rec (recovery_outpoints_from (p.inputs) (p.spent_utxos))
        ≡ ok tt
    pub named : p2qpk_script_pub_key crypto (p.from_addr) ≡ ok script
    pub distinct : IsFresh [] (p.inputs)
    pub spendable : All (IsSpendable script) (p.spent_utxos)
    pub some_outputs : 0 < length (p.outputs)
    pub payable : All IsPayable (p.outputs)
    pub sized : check_size crypto bolt p ≡ ok tt
    pub routed : IsRouted (p.change_addr) (p.outputs) db

  pub validate_ok :
      (recovery : Bool) (p : SpendParams) (db : Db bolt) (rec : AddressRecord)
      → validate crypto bolt recovery p db ≡ ok rec
      → Validated recovery p db rec
  unfolding validate
  validate_ok recovery p db rec h = elim (Result-cases (get_record bolt (p.from_addr) db)) [
    | inr (bad, e) ↦ absurd (ground arith)
    | inl (r, er) ↦ elim (Result-cases (p2qpk_script_pub_key crypto (p.from_addr))) [
      | inr (bad, e) ↦ absurd (ground arith)
      | inl (script, es) ↦
          let lengths : length (p.inputs) ≡ length (p.spent_utxos) = ground arith in
          let checked : check_spent script [] (p.inputs) (p.spent_utxos) ≡ ok tt = ground arith in
          record {
            script = script;
            found = ground arith;
            allowed = ground arith;
            some_inputs = ground arith;
            same_length = lengths;
            in_bounds = ground arith;
            authorized = ground arith;
            named = es;
            distinct = check_spent-IsFresh script [] (p.inputs) (p.spent_utxos) lengths checked;
            spendable = check_spent_ok script [] (p.inputs) (p.spent_utxos) checked;
            some_outputs = ground arith;
            payable = check_outputs_ok (p.outputs) (ground arith);
            sized = ground arith;
            routed = check_change_ok (p.change_addr) (p.outputs) db (ground arith);
          }
    ]
  ]
