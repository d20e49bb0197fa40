-- ===== src/Scan/Grouped.antt =====
-- deposits.go: what `AnalyzeDeposits` returns for an address.
use symbiont_wallet.Base.{
  ℕ, ◌+◌, ◌<◌, ◌≡◌, refl, Bool, ◌&&◌, ◌||◌, false, some, inl, inr, List, [], ◌∷◌, All, length, ok,
  ◌==◌, Option-cases, Bool-cases, arith, if◌then◌else◌,
}
use symbiont_wallet.Base.Bytes.{Bytes, bytes_eq, bytes_eq_iff}
use symbiont_wallet.Base.Int64.{ℤ, pos, half_word, add64, add64_pos}
use symbiont_wallet.Base.Keys.{has_key}
use symbiont_wallet.Base.Maps.{Map, lookup, insert, get_or, lookup-insert}
use symbiont_wallet.Scan.Types.{ScanUnspent}
use symbiont_wallet.Scan.Owners.{Owns}
use symbiont_wallet.Scan.Balances.{add_deposits}
use symbiont_wallet.Scan.Totals.{worth, IsPriced, paid_to, paid_elsewhere, paid_here, paid_nowhere}
use symbiont_wallet.Scan.Groups.{
  value_at, group_sum, keys_of, has_key-insert, IsGroup, insert-IsGroup, group_sum-insert,
  value_at-natural, value_at-le,
}

ap2 : {A B C : Type 0} (f : A → B → C) {a a' : A} {b b' : B} → a ≡ a' → b ≡ b' → f a b ≡ f a' b'
ap2 f p q = λ i. f (p i) (q i)

module _ {Float : Type 0} (fixed8 : Float → Bytes) where
  abbrev pub HasTxId : ScanUnspent Float → Type 0
  HasTxId u = (length (u.txid) == 0) ≡ false

  -- What the outputs of the transaction `x` that pay the script are worth together.
  abbrev pub paid_by : Bytes → Bytes → List (ScanUnspent Float) → ℕ
  paid_by x s [] = 0
  paid_by x s (u ∷ us) =
      (if bytes_eq (u.script_pub_key) s
        then (if bytes_eq x (u.txid) then worth fixed8 u else 0)
        else 0)
      + paid_by x s us

  -- Whether an output of the transaction `x` pays the script.
  abbrev pub pays_by : Bytes → Bytes → List (ScanUnspent Float) → Bool
  pays_by x s [] = false
  pays_by x s (u ∷ us) = (bytes_eq (u.script_pub_key) s && bytes_eq x (u.txid)) || pays_by x s us

  module _ (a s : Bytes) (scripts : Map Bytes) (owns : Owns a s scripts) where
    pub add_deposits_ok :
        (us : List (ScanUnspent Float)) (grouped : Map (Map ℤ)) (g : Map ℤ)
        → lookup a grouped ≡ some g
        → IsGroup g
        → All (IsPriced fixed8) us
        → All HasTxId us
        → group_sum g + paid_to fixed8 s us < half_word
        → (grouped' : Map (Map ℤ)) × (g' : Map ℤ) × (add_deposits fixed8 scripts us grouped
            ≡ ok grouped')
          × (lookup a grouped' ≡ some g')
          × IsGroup g'
          × (group_sum g' ≡ group_sum g + paid_to fixed8 s us)
          × ((x : Bytes) → value_at x g' ≡ value_at x g + paid_by x s us)
          × ((x : Bytes) → has_key x (keys_of g') ≡ (has_key x (keys_of g) || pays_by x s us))
    unfolding add_deposits
    add_deposits_ok [] grouped g h k p t b =
        (grouped, g, refl, h, k, omega arith, λ x. omega arith, λ x. ground arith)
    add_deposits_ok (u ∷ us) grouped g h k (p, ps) (t, ts) b =
        elim (Option-cases (lookup (u.script_pub_key) scripts)) [
          | inl e ↦
              let away = paid_nowhere fixed8 a s scripts owns (u.script_pub_key) e in
              let (found, g', ef, el, eg, total, each, seen) =
                add_deposits_ok us grouped g h k ps ts (ground (arith, away)) in
              (
                found,
                g',
                ground arith,
                el,
                eg,
                ground (arith, away),
                λ x. ground (arith, away, each x),
                λ x. ground (arith, away, seen x),
              )
          | inr (owner, e) ↦
              let old = get_or [] (lookup owner grouped) in
              let next =
                insert (u.txid)
                  (add64 (get_or (pos 0) (lookup (u.txid) old)) (pos (worth fixed8 u))) old in
              let law = lookup-insert a owner next grouped in
              elim (Bool-cases (bytes_eq owner a)) [
                | inr other ↦
                    let away =
                      paid_elsewhere fixed8 a s scripts owns (u.script_pub_key) owner e other in
                    let (found, g', ef, el, eg, total, each, seen) =
                      add_deposits_ok us (insert owner next grouped) g
                        (ground (arith, law, bytes_eq_iff owner a, bytes_eq_iff a owner)) k ps ts
                        (ground (arith, away)) in
                    (
                      found,
                      g',
                      ground (arith, p),
                      el,
                      eg,
                      ground (arith, away),
                      λ x. ground (arith, away, each x),
                      λ x. ground (arith, away, seen x),
                    )
                | inl same ↦
                    let w = worth fixed8 u in
                    let m = value_at (u.txid) g in
                    let pays = paid_here fixed8 a s scripts owns (u.script_pub_key) owner e same in
                    let (others, em) = value_at-le (u.txid) g in
                    let here = bytes_eq_iff (u.script_pub_key) s in
                    let known : old ≡ g = ground (arith, bytes_eq_iff owner a) in
                    let written : next ≡ insert (u.txid) (pos (m + w)) g =
                      ap2 (λ (o : Map ℤ) (z : ℤ). insert (u.txid) z o) known
                        (ground (
                          arith,
                          known,
                          value_at-natural (u.txid) g k,
                          add64_pos m w,
                          pays,
                          here,
                        )) in
                    let grown = group_sum-insert (u.txid) w g in
                    let (found, g', ef, el, eg, total, each, seen) =
                      add_deposits_ok us (insert owner next grouped)
                        (insert (u.txid) (pos (m + w)) g)
                        (ground (arith, law, written, bytes_eq_iff owner a, bytes_eq_iff a owner))
                        (insert-IsGroup (u.txid) (m + w) g k) ps ts
                        (ground (arith, grown, pays, here)) in
                    (
                      found,
                      g',
                      ground (arith, p),
                      el,
                      eg,
                      ground (arith, total, grown, pays, here),
                      λ x. ground (
                        arith,
                        each x,
                        pays,
                        here,
                        lookup-insert x (u.txid) (pos (m + w)) g,
                        bytes_eq_iff x (u.txid),
                      ),
                      λ x.
                          ground
                            (arith, seen x, pays, here, has_key-insert x (u.txid) (pos (m + w)) g),
                    )
              ]
        ]
