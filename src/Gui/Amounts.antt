-- ===== src/Gui/Amounts.antt =====
-- main.go: the money of a send, and the amount field under "withdraw all".
use symbiont_wallet.Base.{
  ℕ, ◌+◌, ◌<◌, ◌≡◌, refl, sym, ap, ◌∙◌, subst, Bool, true, false, inl, inr, List, [], ◌∷◌, ok,
  Result-cases, Bool-cases, arith,
}
use symbiont_wallet.Base.Bytes.{Bytes}
use symbiont_wallet.Base.Int64.{ℤ, pos, IsInt64, leb_ℤ}
use symbiont_wallet.Amounts.Convert.{qoge_to_satoshis}
use symbiont_wallet.TxBuilder.Fees.{plan_fee, plan_withdraw_all}
use symbiont_wallet.TxBuilder.Plan.{plan_fee_ok}
use symbiont_wallet.TxBuilder.Withdraw.{plan_withdraw_all_ok}
use symbiont_wallet.Amounts.Bounds.{qoge_to_satoshis-IsInt64}
use symbiont_wallet.Gui.Sending.{
  SendAmounts, withdraw_amounts, planned_amounts, prepare_send_amounts, AmountControl, set_enabled,
  set_calculated,
}

-- The total is what is sent, the fee and the change, and there is change only when it is included.
abbrev pub IsDivided : ℤ → SendAmounts → Type 0
IsDivided total a =
    (s f c : ℕ) × (a.send_sats ≡ pos s)
    × (a.fee_sats ≡ pos f)
    × (a.change_sats ≡ pos c)
    × (0 < s)
    × (total ≡ pos (s + f + c))
    × (a.include_change ≡ false → c ≡ 0)

withdraw_amounts_ok :
    (total count rate : ℤ) (script : Bytes) (a : SendAmounts)
    → IsInt64 total
    → IsInt64 rate
    → withdraw_amounts total count script rate ≡ ok a
    → IsDivided total a × (a.withdraw_all ≡ true) × (a.destination_script ≡ script)
unfolding withdraw_amounts
withdraw_amounts_ok total count rate script a ht hr h =
    elim (Result-cases (plan_withdraw_all total rate count script)) [
      | inr (bad, e) ↦ absurd (ground arith)
      | inl (plan, e) ↦
          let (s, f, es, ef, et, some_left, _, _) =
            plan_withdraw_all_ok total rate count script plan ht hr e in
          let same : a ≡ record {
            send_sats = plan.send_sats;
            fee_sats = plan.fee_sats;
            vsize = plan.vsize;
            change_sats = pos 0;
            include_change = false;
            withdraw_all = true;
            destination_script = script;
          } =
            ground arith in
          subst (λ x. IsDivided total x × (x.withdraw_all ≡ true) × (x.destination_script ≡ script))
            (sym same)
            ((s, f, 0, es, ef, refl, some_left, et ∙ ap pos (omega arith), (λ k. refl)), refl, refl)
    ]

planned_amounts_ok :
    (total count rate send : ℤ) (script : Bytes) (a : SendAmounts)
    → IsInt64 total
    → IsInt64 rate
    → IsInt64 send
    → planned_amounts total count script rate send ≡ ok a
    → IsDivided total a
      × (a.withdraw_all ≡ false)
      × (a.destination_script ≡ script)
      × (a.send_sats ≡ send)
unfolding planned_amounts
planned_amounts_ok total count rate send script a ht hr hs h =
    elim (Result-cases (plan_fee total send rate count script)) [
      | inr (bad, e) ↦ absurd (ground arith)
      | inl (plan, e) ↦
          let (s, f, c, es, ef, ec, some_sent, et, shape) =
            plan_fee_ok total send rate count script plan ht hs hr e in
          let same : a ≡ record {
            send_sats = send;
            fee_sats = plan.fee_sats;
            vsize = plan.vsize;
            change_sats = plan.change_sats;
            include_change = plan.include_change;
            withdraw_all = false;
            destination_script = script;
          } =
            ground arith in
          let none : plan.include_change ≡ false → c ≡ 0 = λ k. elim shape [
            | inl (included, _, _, _) ↦ absurd (ground (arith, included, k))
            | inr (omitted, zero_left, _, _) ↦ zero_left
          ] in
          subst
            (λ x.
              IsDivided total x
              × (x.withdraw_all ≡ false)
              × (x.destination_script ≡ script)
              × (x.send_sats ≡ send))
            (sym same) ((s, f, c, es, ef, ec, some_sent, et, none), refl, refl, refl)
    ]

-- For an int64 total and rate, when `prepareSendAmounts` succeeds, the amount, the fee and the change
-- add up to the total, the amount is positive, and there is no change unless it is included; the
-- script and the mode are those asked for, and unless everything is withdrawn the amount is what the
-- text says.
pub prepare_send_amounts_ok :
    (total count rate : ℤ) (script text : Bytes) (all : Bool) (a : SendAmounts)
    → IsInt64 total
    → IsInt64 rate
    → prepare_send_amounts total count script rate text all ≡ ok a
    → IsDivided total a
      × (a.withdraw_all ≡ all)
      × (a.destination_script ≡ script)
      × (all ≡ false → qoge_to_satoshis text ≡ ok (a.send_sats))
unfolding prepare_send_amounts
prepare_send_amounts_ok total count rate script text true a ht hr h =
    let (divided, mode, to) = withdraw_amounts_ok total count rate script a ht hr h in
    (divided, mode, to, λ k. absurd (ground (arith, k)))
prepare_send_amounts_ok total count rate script text false a ht hr h =
    elim (Result-cases (qoge_to_satoshis text)) [
      | inr (bad, e) ↦ absurd (ground arith)
      | inl (send, e) ↦ elim (Bool-cases (leb_ℤ send (pos 0))) [
        | inl c ↦ absurd (ground arith)
        | inr c ↦
            let (divided, mode, to, sent) =
              planned_amounts_ok total count rate send script a ht hr
                (qoge_to_satoshis-IsInt64 text send e) (ground arith) in
            (divided, mode, to, λ k. e ∙ ap ok (sym sent))
      ]
    ]

-- The field after some calculated amounts.
abbrev pub calculate_each : List ℤ → AmountControl → AmountControl
calculate_each [] c = c
calculate_each (sats ∷ more) c = calculate_each more (set_calculated sats c)

calculate_keeps :
    (calculated : List ℤ) (c : AmountControl)
    → c.enabled ≡ true
    → let d = calculate_each calculated c in (d.enabled ≡ true) × (d.manual_value ≡ c.manual_value)
unfolding set_calculated
calculate_keeps [] c on = (on, refl)
calculate_keeps (sats ∷ more) c on =
    let kept : ((set_calculated sats c).enabled ≡ true)
        × ((set_calculated sats c).manual_value ≡ c.manual_value) =
      ground arith in
    let (still, same) = calculate_keeps more (set_calculated sats c) (kept.0) in
    (still, same ∙ kept.1)

-- From a field that is off, however often an amount is calculated while "withdraw all" is on,
-- switching it off brings back the text that was in the field, open for editing.
pub manual_amount_restored :
    (c : AmountControl) (calculated : List ℤ)
    → c.enabled ≡ false
    → let back = set_enabled false (calculate_each calculated (set_enabled true c)) in
      (back.entry_text ≡ c.entry_text) × (back.entry_disabled ≡ false) × (back.enabled ≡ false)
manual_amount_restored c calculated off =
    let started : ((set_enabled true c).enabled ≡ true)
        × ((set_enabled true c).manual_value ≡ c.entry_text) =
      unfold set_enabled in ground arith in
    let (on, same) = calculate_keeps calculated (set_enabled true c) (started.0) in
    restored (calculate_each calculated (set_enabled true c)) (c.entry_text) on (same ∙ started.1)
  where
    restored :
        (d : AmountControl) (text : Bytes)
        → d.enabled ≡ true
        → d.manual_value ≡ text
        → ((set_enabled false d).entry_text ≡ text)
          × ((set_enabled false d).entry_disabled ≡ false)
          × ((set_enabled false d).enabled ≡ false)
    restored d text on same = unfold set_enabled in ground arith
