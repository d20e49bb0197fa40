-- ===== src/Scan/Depths.antt =====
-- balance.go: `AnalyzeFunding` agrees with `AggregateBalances` on the balance, and its depth is that
-- of the shallowest output.
use symbiont_wallet.Base.{
  ℕ, ◌+◌, ◌-◌, ◌≤◌, ◌<◌, ◌≡◌, refl, true, ◌&&◌, ◌||◌, some, inl, inr, List, [], ◌∷◌, All, ok, ltb,
  ◌==◌, Option-cases, Bool-cases, arith, if◌then◌else◌,
}
use symbiont_wallet.Base.Bytes.{Bytes, bytes_eq, bytes_eq_iff}
use symbiont_wallet.Base.Int64.{pos, pos_part, half_word, add64_pos, sub64_pos}
use symbiont_wallet.Base.Keys.{has_key}
use symbiont_wallet.Base.Maps.{Map, lookup, insert, get_or, lookup-insert}
use symbiont_wallet.Address.Format.{Convert}
use symbiont_wallet.Scan.Types.{ScanUnspent, ScanResult, FundingStatus}
use symbiont_wallet.Scan.Index.{script_hex}
use symbiont_wallet.Scan.Owners.{IsOnlyOwner, HasScript, Owns, index_addrs_ok, index_addrs_succeeds}
use symbiont_wallet.Scan.Balances.{depth_of, add_funding, no_funding, add_statuses, analyze_funding}
use symbiont_wallet.Scan.Totals.{worth, IsPriced, paid_to, paid_elsewhere, paid_here, paid_nowhere}

abbrev pub status_of : ℕ → ℕ → FundingStatus
status_of n c = record { balance_sats = pos n; confirmations = pos c }

-- Of two depths the lesser, where 0 is none.
abbrev pub shallower : ℕ → ℕ → ℕ
shallower c d = if d == 0 then c else if c == 0 || ltb d c then d else c

pub depth_of_mined :
    (t h : ℕ) → h ≤ t → t + 1 < half_word → depth_of (pos t) (pos h) ≡ pos (t + 1 - h)
unfolding depth_of
depth_of_mined t h k b = ground (arith, sub64_pos t h, add64_pos (t - h) 1)

add_funding-status_of :
    (n c w d : ℕ)
    → n + w < half_word
    → add_funding (pos w) (pos d) (status_of n c)
      ≡ status_of (n + w) (if c == 0 || ltb d c then d else c)
unfolding add_funding
add_funding-status_of n c w d b = ground (arith, add64_pos n w)

module _ {Float : Type 0} (fixed8 : Float → Bytes) (tip : ℕ) where
  -- An output in a block up to the tip.
  abbrev pub IsMined : ScanUnspent Float → Type 0
  IsMined u = (u.height ≡ pos (pos_part (u.height))) × (pos_part (u.height) ≤ tip)

  -- The least number of confirmations among the outputs that pay the script something, 0 if none do.
  abbrev pub shallowest : Bytes → List (ScanUnspent Float) → ℕ
  shallowest s [] = 0
  shallowest s (u ∷ us) =
      let rest = shallowest s us in
      if bytes_eq (u.script_pub_key) s && ltb 0 (worth fixed8 u)
      then shallower (tip + 1 - pos_part (u.height)) rest
      else rest

  module _ (a s : Bytes) (scripts : Map Bytes) (owns : Owns a s scripts)
      (room : tip + 1 < half_word) where
    pub add_statuses_ok :
        (us : List (ScanUnspent Float)) (statuses : Map FundingStatus) (n c : ℕ)
        → lookup a statuses ≡ some (status_of n c)
        → All (IsPriced fixed8) us
        → All IsMined us
        → n + paid_to fixed8 s us < half_word
        → (statuses' : Map FundingStatus) × (add_statuses fixed8 (pos tip) scripts us statuses
            ≡ ok statuses')
          × (lookup a statuses'
              ≡ some (status_of (n + paid_to fixed8 s us) (shallower c (shallowest s us))))
    unfolding add_statuses
    add_statuses_ok [] statuses n c h p m b = (statuses, refl, ground arith)
    add_statuses_ok (u ∷ us) statuses n c h (p, ps) ((mined, below), ms) b =
        elim (Option-cases (lookup (u.script_pub_key) scripts)) [
          | inl e ↦
              let away = paid_nowhere fixed8 a s scripts owns (u.script_pub_key) e in
              let (found, ef, el) =
                add_statuses_ok us statuses n c h ps ms (ground (arith, away)) in
              (found, ground arith, ground (arith, away, el))
          | inr (owner, e) ↦ elim (Bool-cases (worth fixed8 u == 0)) [
            | inl nothing ↦
                let (found, ef, el) = add_statuses_ok us statuses n c h ps ms (omega (arith, b)) in
                (found, ground (arith, p), ground (arith, el))
            | inr something ↦
                let d = tip + 1 - pos_part (u.height) in
                let next =
                  add_funding (pos (worth fixed8 u)) (depth_of (pos tip) (u.height))
                    (get_or no_funding (lookup owner statuses)) in
                let law = lookup-insert a owner next statuses in
                elim (Bool-cases (bytes_eq owner a)) [
                  | inl here ↦
                      let pays =
                        paid_here fixed8 a s scripts owns (u.script_pub_key) owner e here in
                      let (found, ef, el) =
                        add_statuses_ok us (insert owner next statuses) (n + worth fixed8 u)
                          (if c == 0 || ltb d c then d else c)
                          (ground (
                            arith,
                            law,
                            mined,
                            bytes_eq_iff owner a,
                            pays,
                            bytes_eq_iff (u.script_pub_key) s,
                            depth_of_mined tip (pos_part (u.height)),
                            add_funding-status_of n c (worth fixed8 u) d,
                          ))
                          ps ms (ground (arith, pays, bytes_eq_iff (u.script_pub_key) s)) in
                      (
                        found,
                        ground (arith, p),
                        ground (arith, el, pays, bytes_eq_iff (u.script_pub_key) s),
                      )
                  | inr away ↦
                      let pays =
                        paid_elsewhere fixed8 a s scripts owns (u.script_pub_key) owner e away in
                      let (found, ef, el) =
                        add_statuses_ok us (insert owner next statuses) n c
                          (ground (arith, law, bytes_eq_iff owner a, bytes_eq_iff a owner)) ps ms
                          (ground (arith, pays)) in
                      (found, ground (arith, p), ground (arith, el, pays))
                ]
          ]
        ]

  module _ (convert_bits : Convert) (result : ScanResult Float) (addrs : List Bytes) where
    -- When every address decodes, every amount converts and every output lies in a block up to the
    -- scan's tip, `AnalyzeFunding` returns a table, and an address of the list, the only one with its
    -- script, has there what the outputs that pay the script are worth, and the number of
    -- confirmations of the shallowest one that is worth anything.
    pub analyze_funding_total :
        (a s : Bytes)
        → result.height ≡ pos tip
        → tip + 1 < half_word
        → has_key a addrs ≡ true
        → script_hex convert_bits a ≡ ok s
        → IsOnlyOwner convert_bits a s addrs
        → All (HasScript convert_bits) addrs
        → All (IsPriced fixed8) (result.unspents)
        → All IsMined (result.unspents)
        → paid_to fixed8 s (result.unspents) < half_word
        → (statuses : Map FundingStatus) × (analyze_funding fixed8 convert_bits result addrs
            ≡ ok statuses)
          × (lookup a statuses
              ≡ some
                  (status_of (paid_to fixed8 s (result.unspents)) (shallowest s (result.unspents))))
    unfolding analyze_funding
    analyze_funding_total a s height room listed script own valid priced mined bound =
        let ((scripts, started), et) =
          index_addrs_succeeds convert_bits no_funding addrs [] [] valid in
        let (owns, begun) =
          index_addrs_ok convert_bits no_funding a s addrs scripts started listed own script et in
        let (statuses, es, el) =
          add_statuses_ok a s scripts owns room (result.unspents) started 0 0 begun priced mined
            (omega arith) in
        (statuses, ground (arith, et, height), ground (arith, el))
