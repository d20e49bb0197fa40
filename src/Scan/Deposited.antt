-- ===== src/Scan/Deposited.antt =====
-- deposits.go: the deposits that `AnalyzeDeposits` lists.
use symbiont_wallet.Base.{
  ℕ, ◌+◌, ◌<◌, ◌≡◌, refl, sym, ap, ◌∙◌, map, subst, true, false, none, some, inl, inr, List, [],
  ◌∷◌, ◌++◌, All, ok, Bool-cases, arith,
}
use mathlib.Core.List.{Permᴰ}
use symbiont_wallet.Base.Bytes.{Bytes, bytes_eq, bytes_eq_iff}
use symbiont_wallet.Base.Int64.{ℤ, pos, pos_part, half_word}
use symbiont_wallet.Base.Keys.{has_key}
use symbiont_wallet.Base.Maps.{Map, lookup, get_or, lookup-insert}
use symbiont_wallet.Address.Format.{Convert}
use symbiont_wallet.Scan.Types.{ScanResult, Deposit}
use symbiont_wallet.Scan.Index.{script_hex}
use symbiont_wallet.Scan.Owners.{IsOnlyOwner, HasScript, index_addrs_ok, index_addrs_succeeds}
use symbiont_wallet.Scan.Balances.{deposits_of, append_deposits, list_deposits, analyze_deposits}
use symbiont_wallet.Scan.Totals.{IsPriced, paid_to}
use symbiont_wallet.Scan.Grouped.{HasTxId, paid_by, pays_by, add_deposits_ok}
use symbiont_wallet.Scan.Groups.{
  value_at, group_sum, IsGroup, IsNodup, keys_of, IsGroup-IsNodup, IsNodup-perm, has_key-perm,
  entries_found, group_sum-perm,
}

abbrev pub sum_deposits : List Deposit → ℕ
sum_deposits [] = 0
sum_deposits (d ∷ ds) = pos_part (d.amount_sats) + sum_deposits ds

append_deposits_other :
    (a b : Bytes) (g : Map ℤ) (found : Map (List Deposit))
    → bytes_eq a b ≡ false
    → lookup a (append_deposits b g found) ≡ lookup a found
unfolding append_deposits
append_deposits_other a b [] found h = refl
append_deposits_other a b (e ∷ es) found h =
    ground (arith, lookup-insert a b (get_or [] (lookup b found) ++ deposits_of (e ∷ es)) found)

append_deposits_same :
    (a : Bytes) (g : Map ℤ) (found : Map (List Deposit))
    → lookup a found ≡ none
    → get_or [] (lookup a (append_deposits a g found)) ≡ deposits_of g
unfolding append_deposits
append_deposits_same a [] found h = ground arith
append_deposits_same a (e ∷ es) found h = ground (
  arith,
  lookup-insert a a (get_or [] (lookup a found) ++ deposits_of (e ∷ es)) found,
  bytes_eq_iff a a,
)

abbrev pub txids_of : List Deposit → List Bytes
txids_of ds = map (λ d. d.txid) ds

txids_of-deposits_of : (g : Map ℤ) → txids_of (deposits_of g) ≡ keys_of g
txids_of-deposits_of [] = refl
txids_of-deposits_of ((x, v) ∷ g) = ap (λ ks. x ∷ ks) (txids_of-deposits_of g)

sum_deposits_of : (g : Map ℤ) → sum_deposits (deposits_of g) ≡ group_sum g
sum_deposits_of [] = refl
sum_deposits_of ((x, v) ∷ g) = omega (arith, sum_deposits_of g)

module _ (walk : Map ℤ → Map ℤ) where
  list_deposits_other :
      (a : Bytes) (grouped : Map (Map ℤ)) (addrs : List Bytes) (found : Map (List Deposit))
      → has_key a addrs ≡ false
      → lookup a (list_deposits walk grouped addrs found) ≡ lookup a found
  unfolding list_deposits has_key
  list_deposits_other a grouped [] found h = refl
  list_deposits_other a grouped (b ∷ bs) found h =
      let g = walk (get_or [] (lookup b grouped)) in
      ground (
        arith,
        list_deposits_other a grouped bs (append_deposits b g found),
        append_deposits_other a b g found,
      )

  list_deposits_ok :
      (a : Bytes) (grouped : Map (Map ℤ)) (g : Map ℤ) (addrs : List Bytes)
      (found : Map (List Deposit))
      → IsNodup addrs
      → has_key a addrs ≡ true
      → lookup a grouped ≡ some g
      → lookup a found ≡ none
      → get_or [] (lookup a (list_deposits walk grouped addrs found)) ≡ deposits_of (walk g)
  unfolding list_deposits has_key
  list_deposits_ok a grouped g [] found d l e h = cc
  list_deposits_ok a grouped g (b ∷ bs) found (fresh, d) l e h =
      let w = walk (get_or [] (lookup b grouped)) in
      elim (Bool-cases (bytes_eq a b)) [
        | inl same ↦ ground (
          arith,
          bytes_eq_iff a b,
          list_deposits_other a grouped bs (append_deposits b w found),
          append_deposits_same a w found,
        )
        | inr other ↦ ground (
          arith,
          list_deposits_ok a grouped g bs (append_deposits b w found) d,
          append_deposits_other a b w found,
        )
      ]

abbrev AllListed : (Map ℤ) → (Bytes → ℕ) → Type 0
AllListed g f = All (λ e. e.1 ≡ pos (f (e.0))) g

All-perm : (f : Bytes → ℕ) {g h : Map ℤ} → Permᴰ g h → AllListed h f → AllListed g f
All-perm f Permᴰ.nil k = tt
All-perm f (Permᴰ.cons e p) (k, ks) = (ground (arith, e, k), All-perm f p ks)
All-perm f (Permᴰ.swap e e') (k, (k', ks)) = (ground (arith, e, k'), (ground (arith, e', k), ks))
All-perm f (Permᴰ.trans p q) k = All-perm f p (All-perm f q k)

-- An entry of the table is the amount under its key.
listed_value :
    (f : Bytes → ℕ) (g : Map ℤ) (h : Map ℤ)
    → IsGroup g
    → All (λ e. lookup e.0 h ≡ some e.1) g
    → ((x : Bytes) → value_at x h ≡ f x)
    → AllListed g f
listed_value f [] h k l v = tt
listed_value f ((x, z) ∷ g) h (fresh, n, k) (l, ls) v =
    (ground (arith, v x), listed_value f g h k ls v)

module _ {Float : Type 0} (fixed8 : Float → Bytes) (convert_bits : Convert)
    (result : ScanResult Float) (addrs : List Bytes) (walk : Map ℤ → Map ℤ) where
  -- One deposit for each transaction with an output that pays the script, and none for another, of
  -- what its outputs are worth; together they are worth what all outputs are.
  abbrev pub IsCredited : Bytes → List Deposit → Type 0
  IsCredited s ds =
      (sum_deposits ds ≡ paid_to fixed8 s (result.unspents))
      × All (λ d. d.amount_sats ≡ pos (paid_by fixed8 (d.txid) s (result.unspents))) ds
      × IsNodup (txids_of ds)
      × ((x : Bytes) → has_key x (txids_of ds) ≡ pays_by fixed8 x s (result.unspents))

  listed_deposits :
      (s : Bytes) (g : Map ℤ)
      → AllListed g (λ x. paid_by fixed8 x s (result.unspents))
      → All (λ d. d.amount_sats ≡ pos (paid_by fixed8 (d.txid) s (result.unspents))) (deposits_of g)
  listed_deposits s [] h = tt
  listed_deposits s ((x, z) ∷ g) (h, hs) = (h, listed_deposits s g hs)

  -- In whatever order the runtime walks a map: when every address decodes and none is listed twice,
  -- every amount converts and every output has a transaction ID, `AnalyzeDeposits` returns a table,
  -- and an address of the list, the only one with its script, has exactly one deposit for each
  -- transaction with an output that pays the script, of what its outputs are worth, and no other;
  -- together they are worth what the outputs that pay the script are worth.
  pub analyze_deposits_total :
      (a s : Bytes)
      → ((m : Map ℤ) → Permᴰ (walk m) m)
      → IsNodup addrs
      → has_key a addrs ≡ true
      → script_hex convert_bits a ≡ ok s
      → IsOnlyOwner convert_bits a s addrs
      → All (HasScript convert_bits) addrs
      → All (IsPriced fixed8) (result.unspents)
      → All (HasTxId fixed8) (result.unspents)
      → paid_to fixed8 s (result.unspents) < half_word
      → (found : Map (List Deposit)) × (analyze_deposits walk fixed8 convert_bits result addrs
          ≡ ok found)
        × IsCredited s (get_or [] (lookup a found))
  unfolding analyze_deposits lookup
  analyze_deposits_total a s perm nodup listed script own valid priced named bound =
      let ((scripts, started), et) = index_addrs_succeeds convert_bits [] addrs [] [] valid in
      let (owns, begun) =
        index_addrs_ok convert_bits [] a s addrs scripts started listed own script et in
      let (grouped, g, ef, el, eg, total, each, seen) =
        add_deposits_ok fixed8 a s scripts owns (result.unspents) started [] begun tt priced named
          (omega arith) in
      let found = list_deposits walk grouped addrs [] in
      let same = list_deposits_ok walk a grouped g addrs [] nodup listed el refl in
      let f : Bytes → ℕ = λ x. paid_by fixed8 x s (result.unspents) in
      let entries = listed_value f g g eg (entries_found g eg) (λ x. omega (arith, each x)) in
      let ids = txids_of-deposits_of (walk g) in
      let credited : IsCredited s (deposits_of (walk g)) = (
        omega (arith, sum_deposits_of (walk g), group_sum-perm (perm g), total),
        listed_deposits s (walk g) (All-perm f (perm g) entries),
        subst IsNodup (sym ids) (IsNodup-perm (perm g) (IsGroup-IsNodup g eg)),
        λ x.
            ap (has_key x) ids
            ∙ has_key-perm x (perm g)
            ∙ (unfold has_key in ground (arith, seen x)),
      ) in
      (found, ground (arith, et, ef), subst (IsCredited s) (sym same) credited)
