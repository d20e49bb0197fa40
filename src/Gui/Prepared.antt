-- ===== src/Gui/Prepared.antt =====
-- main.go: what `prepareSpendInputs` returns.
use symbiont_wallet.Base.{
  ℕ, ◌+◌, ◌<◌, ◌≡◌, refl, sym, ap, ◌∙◌, subst, true, false, inl, inr, some, List, [], ◌∷◌, map, All,
  ok, err, Result-cases, arith,
}
use mathlib.Core.List.{Perm}
use symbiont_wallet.Base.Bytes.{Bytes, bytes_eq_iff, bytes_eq_refl}
use symbiont_wallet.Base.Hex.{hex_decode}
use symbiont_wallet.Base.Int64.{ℤ, pos, pos_part, IsInt64, half_word, add64, sub64, leb_ℤ, ltb_ℤ}
use symbiont_wallet.Base.Keys.{has_key}
use symbiont_wallet.Keystore.Queries.{sort_by}
use symbiont_wallet.Keystore.Sorting.{sort_by-Perm}
use symbiont_wallet.Amounts.Bounds.{parse_qoge_decimal-IsInt64}
use symbiont_wallet.TxBuilder.Types.{TxInput, TxOutput, Coin}
use symbiont_wallet.TxBuilder.Fees.{max_int64}
use symbiont_wallet.TxBuilder.TxId.{tx_id_le_from_hex}
use symbiont_wallet.TxBuilder.Coins.{coin_key}
use symbiont_wallet.TxBuilder.Ordering.{IsDistinct}
use symbiont_wallet.TxBuilder.Choice.{IsAmount, sum_amounts, guard_passes}
use symbiont_wallet.Scan.Types.{ScanUnspent, float_qoge_to_satoshis}
use symbiont_wallet.Gui.Inputs.{
  PreparedUtxo, PreparedInputs, outpoint_key, unspent_key, unspent_before, positive_sats,
  decode_script, with_input, nothing_prepared, prepare_each, prepare_spend_inputs, coin_of,
}

module _ {Float : Type 0} (fixed8 : Float → Bytes) where
  -- The satoshis that an output converts to.
  abbrev pub sats_of : ScanUnspent Float → ℤ
  sats_of u = elim (float_qoge_to_satoshis fixed8 (u.amount)) [ ok z ↦ z | err e ↦ pos 0 ]

  -- The output as the windows list it, and as a coin.
  abbrev pub utxo_of : ScanUnspent Float → PreparedUtxo
  utxo_of u = record { txid = u.txid; vout = u.vout; sats = sats_of u }

  abbrev pub coin_of_unspent : ScanUnspent Float → Coin
  coin_of_unspent u = coin_of (utxo_of u)

  -- The input that spends the output, and the output as the signature hash reads it.
  abbrev pub Spends : ScanUnspent Float → TxInput → TxOutput → Type 0
  Spends u i o =
      (tx_id_le_from_hex (u.txid) ≡ ok (i.txid_le))
      × (i.vout ≡ u.vout)
      × (i.n_sequence ≡ 0xffff_ffff)
      × (o.amount ≡ sats_of u)
      × (hex_decode (u.script_pub_key) ≡ some (o.script))

  abbrev pub SpendsEach : List (ScanUnspent Float) → List TxInput → List TxOutput → Type 0
  SpendsEach [] [] [] = Unit {0}
  SpendsEach (u ∷ us) (i ∷ is) (o ∷ os) = Spends u i o × SpendsEach us is os
  SpendsEach _ _ _ = ⊥

  positive_sats_ok :
      (u : ScanUnspent Float) (z : ℤ)
      → positive_sats fixed8 (u.amount) ≡ ok z
      → (sats_of u ≡ z) × (leb_ℤ z (pos 0) ≡ false) × IsInt64 z
  unfolding positive_sats
  positive_sats_ok u z h = elim (Result-cases (float_qoge_to_satoshis fixed8 (u.amount))) [
    | inr (bad, e) ↦ absurd (ground arith)
    | inl (y, e) ↦
        let same : y ≡ z = ground arith in
        (
          ground arith,
          ground arith,
          subst IsInt64 same (
              parse_qoge_decimal-IsInt64 (fixed8 (u.amount)) y
                (unfold float_qoge_to_satoshis in e)),
        )
  ]

  decode_script_ok :
      (text script : Bytes) → decode_script text ≡ ok script → hex_decode text ≡ some script
  unfolding decode_script
  decode_script_ok text script h = ground arith

  -- One turn of the loop that succeeds.
  prepare_each_cons :
      (seen : List Bytes) (total : ℤ) (u : ScanUnspent Float) (us : List (ScanUnspent Float))
      (p : PreparedInputs)
      → prepare_each fixed8 seen total (u ∷ us) ≡ ok p
      → (txid_le : Bytes) × (sats : ℤ) × (script : Bytes) × (rest : PreparedInputs) × (has_key
            (unspent_key u)
            seen
          ≡ false)
        × (tx_id_le_from_hex (u.txid) ≡ ok txid_le)
        × (positive_sats fixed8 (u.amount) ≡ ok sats)
        × (ltb_ℤ (sub64 (pos max_int64) sats) total ≡ false)
        × (decode_script (u.script_pub_key) ≡ ok script)
        × (prepare_each fixed8 (unspent_key u ∷ seen) (add64 total sats) us ≡ ok rest)
        × (p ≡ with_input u txid_le sats script rest)
  unfolding prepare_each
  prepare_each_cons seen total u us p h = elim (Result-cases (tx_id_le_from_hex (u.txid))) [
    | inr (bad, e) ↦ absurd (ground arith)
    | inl (txid_le, et) ↦ elim (Result-cases (positive_sats fixed8 (u.amount))) [
      | inr (bad, e) ↦ absurd (ground arith)
      | inl (sats, es) ↦ elim (Result-cases (decode_script (u.script_pub_key))) [
        | inr (bad, e) ↦ absurd (ground arith)
        | inl (script, ec) ↦
            elim (Result-cases (prepare_each fixed8 (unspent_key u ∷ seen) (add64 total sats) us)) [
              | inr (bad, e) ↦ absurd (ground arith)
              | inl (rest, er) ↦ (
                txid_le,
                sats,
                script,
                rest,
                ground arith,
                et,
                es,
                ground arith,
                ec,
                er,
                ground arith,
              )
            ]
      ]
    ]
  ]

  -- A key that was seen is not that of a later output.
  prepare_each_seen :
      (k : Bytes) (seen : List Bytes) (total : ℤ) (us : List (ScanUnspent Float))
      (p : PreparedInputs)
      → has_key k seen ≡ true
      → prepare_each fixed8 seen total us ≡ ok p
      → has_key k (map unspent_key us) ≡ false
  unfolding has_key
  prepare_each_seen k seen total [] p h e = refl
  prepare_each_seen k seen total (u ∷ us) p h e =
      let (i, z, c, rest, fresh, _, _, _, _, er, _) = prepare_each_cons seen total u us p e in
      ground (
        arith,
        bytes_eq_iff k (unspent_key u),
        prepare_each_seen k (unspent_key u ∷ seen) (add64 total z) us rest (ground (arith, h)) er,
      )

  -- What the loop makes of the outputs, in their order.
  -- `t` is the total in front of them.
  pub record IsPrepared (us : List (ScanUnspent Float)) (t : ℕ) (p : PreparedInputs) : Type 0 where
    pub listed : p.utxos ≡ map utxo_of us
    pub total : p.total_sats ≡ pos (t + sum_amounts (map coin_of_unspent us))
    pub fits : t + sum_amounts (map coin_of_unspent us) < half_word
    pub amounts : All IsAmount (map coin_of_unspent us)
    pub distinct : IsDistinct (map coin_of_unspent us)
    pub spends : SpendsEach us (p.wallet_inputs) (p.spent_utxos)
    pub inputs : p.tx_inputs ≡ p.wallet_inputs

  key_of : (u : ScanUnspent Float) → coin_key (coin_of_unspent u) ≡ unspent_key u
  unfolding coin_key outpoint_key
  key_of u = refl

  has_key_first : (k : Bytes) (seen : List Bytes) → has_key k (k ∷ seen) ≡ true
  unfolding has_key
  has_key_first k seen = ground (arith, bytes_eq_refl k)

  keys_of :
      (us : List (ScanUnspent Float)) → map coin_key (map coin_of_unspent us) ≡ map unspent_key us
  unfolding coin_key outpoint_key
  keys_of [] = refl
  keys_of (u ∷ us) = ap (λ (l : List Bytes). unspent_key u ∷ l) (keys_of us)

  prepare_each-IsPrepared :
      (seen : List Bytes) (t : ℕ) (us : List (ScanUnspent Float)) (p : PreparedInputs)
      → t < half_word
      → prepare_each fixed8 seen (pos t) us ≡ ok p
      → IsPrepared us t p
  prepare_each-IsPrepared seen t [] p b e =
      let same : nothing_prepared (pos t) ≡ p = unfold prepare_each in ground arith in
      subst (IsPrepared [] t) same (record {
        listed = refl;
        total = ap pos (omega arith);
        fits = omega arith;
        amounts = tt;
        distinct = tt;
        spends = tt;
        inputs = refl;
      })
  prepare_each-IsPrepared seen t (u ∷ us) p b e =
      let (i, z, c, rest, fresh, ei, ez, guard, ec, er, ep) =
        prepare_each_cons seen (pos t) u us p e in
      let (same, positive, int64) = positive_sats_ok u z ez in
      let amount : IsAmount (coin_of_unspent u) =
        subst (λ y. IsInt64 y × (leb_ℤ y (pos 0) ≡ false)) (sym same) (int64, positive) in
      let guard' = subst (λ y. ltb_ℤ (sub64 (pos max_int64) y) (pos t) ≡ false) (sym same) guard in
      let (fits, added) = guard_passes (coin_of_unspent u) t amount b guard' in
      let tail =
        subst (λ y. prepare_each fixed8 (unspent_key u ∷ seen) y us ≡ ok rest)
          (ap (add64 (pos t)) (sym same) ∙ added) er in
      let m = t + pos_part (sats_of u) in
      let later = prepare_each-IsPrepared (unspent_key u ∷ seen) m us rest fits tail in
      let unseen =
        prepare_each_seen (unspent_key u) (unspent_key u ∷ seen) (pos m) us rest
          (has_key_first (unspent_key u) seen) tail in
      subst (IsPrepared (u ∷ us) t) (sym ep) (record {
        listed = ground (arith, later.listed, same);
        total = later.total ∙ ap pos (omega arith);
        fits = omega (arith, later.fits);
        amounts = (amount, later.amounts);
        distinct = (
          ap (has_key (coin_key (coin_of_unspent u))) (keys_of us)
              ∙ ap (λ k. has_key k (map unspent_key us)) (key_of u)
              ∙ unseen,
          later.distinct,
        );
        spends =
            ((ei, refl, refl, sym same, decode_script_ok (u.script_pub_key) c ec), later.spends);
        inputs =
            ap
              (λ (l : List TxInput).
                record { txid_le = i; vout = u.vout; n_sequence = 0xffff_ffff } ∷ l)
              later.inputs;
      })

  -- When `prepareSpendInputs` succeeds, some order of the outputs it was given is prepared one by one:
  -- each input names its output and each spent output has its amount, which is positive, and its
  -- script; no output is named twice, and the total is the sum, an int64.
  pub prepare_spend_inputs_ok :
      (us : List (ScanUnspent Float)) (p : PreparedInputs)
      → prepare_spend_inputs fixed8 us ≡ ok p
      → (ordered : List (ScanUnspent Float)) × Perm ordered us × IsPrepared ordered 0 p
  unfolding prepare_spend_inputs
  prepare_spend_inputs_ok us p h = (
    sort_by unspent_before us,
    sort_by-Perm unspent_before us,
    prepare_each-IsPrepared [] 0 (sort_by unspent_before us) p (omega arith) (ground arith),
  )
