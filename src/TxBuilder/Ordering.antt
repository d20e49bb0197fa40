-- ===== src/TxBuilder/Ordering.antt =====
-- txbuilder.go: what `orderedP2QPKCoins` returns.
use symbiont_wallet.Base.{
  ◌≡◌, refl, ◌∙◌, subst, Bool, true, false, ◌||◌, List, [], ◌∷◌, map, All, ok, arith, if◌then◌else◌,
}
use mathlib.Core.List.{Perm}
use mathlib.Core.List.Perm
use symbiont_wallet.Base.Bytes.{
  Bytes, bytes_eq, bytes_eq_iff, bytes_eq_refl, bytes_lt, bytes_lt_irrefl, bytes_lt_trans,
}
use symbiont_wallet.Base.Int64.{pos, leb_ℤ}
use symbiont_wallet.Base.Keys.{has_key}
use symbiont_wallet.TxBuilder.Types.{Coin}
use symbiont_wallet.TxBuilder.Coins.{
  coin_key, check_coins, coin_less, insert_coin, sort_coins, ordered_coins,
}

inserted-Perm :
    (b : Bool) (c d : Coin) (ds rest : List Coin)
    → Perm rest (c ∷ ds)
    → Perm (if b then d ∷ rest else c ∷ d ∷ ds) (c ∷ d ∷ ds)
inserted-Perm true c d ds rest h = Perm.trans (Perm.cons d h) (Perm.swap c d ds)
inserted-Perm false c d ds rest h = Perm.refl (c ∷ d ∷ ds)

insert_coin-Perm : (c : Coin) (ds : List Coin) → Perm (insert_coin c ds) (c ∷ ds)
unfolding insert_coin
insert_coin-Perm c [] = Perm.refl (c ∷ [])
insert_coin-Perm c (d ∷ ds) =
    inserted-Perm (coin_less d c) c d ds (insert_coin c ds) (insert_coin-Perm c ds)

sort_coins-Perm : (cs : List Coin) → Perm (sort_coins cs) cs
unfolding sort_coins
sort_coins-Perm [] = Perm.refl []
sort_coins-Perm (c ∷ cs) =
    Perm.trans (insert_coin-Perm c (sort_coins cs)) (Perm.cons c (sort_coins-Perm cs))

-- No coin comes before one that is less than it.
abbrev pub FirstAfter : Coin → List Coin → Type 0
FirstAfter c [] = Unit {0}
FirstAfter c (d ∷ ds) = coin_less d c ≡ false

abbrev pub IsOrdered : List Coin → Type 0
IsOrdered [] = Unit {0}
IsOrdered (c ∷ cs) = FirstAfter c cs × IsOrdered cs

bytes_lt_asym : (a b : Bytes) → bytes_lt a b ≡ true → bytes_lt b a ≡ false
bytes_lt_asym a b h = ground (arith, bytes_lt_trans a b a, bytes_lt_irrefl a)

pub bytes_eq_sym : (a b : Bytes) → bytes_eq a b ≡ bytes_eq b a
bytes_eq_sym a b = ground (arith, bytes_eq_iff a b, bytes_eq_iff b a)

coin_less_asym : (a b : Coin) → coin_less a b ≡ true → coin_less b a ≡ false
unfolding coin_less
coin_less_asym a b h = ground (arith, bytes_lt_asym (a.id) (b.id), bytes_eq_sym (a.id) (b.id))

insert_coin-IsOrdered : (c : Coin) (ds : List Coin) → IsOrdered ds → IsOrdered (insert_coin c ds)
unfolding insert_coin
insert_coin-IsOrdered c [] h = (tt, tt)
insert_coin-IsOrdered c (d ∷ []) h = ground (arith, coin_less_asym d c)
insert_coin-IsOrdered c (d ∷ e ∷ ds) (h, hs) =
    ground (arith, coin_less_asym d c, insert_coin-IsOrdered c (e ∷ ds) hs)

sort_coins-IsOrdered : (cs : List Coin) → IsOrdered (sort_coins cs)
unfolding sort_coins
sort_coins-IsOrdered [] = tt
sort_coins-IsOrdered (c ∷ cs) = insert_coin-IsOrdered c (sort_coins cs) (sort_coins-IsOrdered cs)

-- No two coins have one key.
abbrev pub IsDistinct : List Coin → Type 0
IsDistinct [] = Unit {0}
IsDistinct (c ∷ cs) = (has_key (coin_key c) (map coin_key cs) ≡ false) × IsDistinct cs

abbrev pub IsPositive : Coin → Type 0
IsPositive c = leb_ℤ (c.amount_sats) (pos 0) ≡ false

has_key_self : (k : Bytes) (seen : List Bytes) → has_key k (k ∷ seen) ≡ true
unfolding has_key
has_key_self k seen = ground (arith, bytes_eq_refl k)

-- What `orderedP2QPKCoins` checks.
check_coins_seen :
    (k : Bytes) (seen : List Bytes) (cs : List Coin)
    → has_key k seen ≡ true
    → check_coins seen cs ≡ ok tt
    → has_key k (map coin_key cs) ≡ false
unfolding check_coins has_key
check_coins_seen k seen [] h e = refl
check_coins_seen k seen (c ∷ cs) h e =
    ground (arith, check_coins_seen k (coin_key c ∷ seen) cs, bytes_eq_iff k (coin_key c))

check_coins_ok :
    (seen : List Bytes) (cs : List Coin)
    → check_coins seen cs ≡ ok tt
    → IsDistinct cs × All IsPositive cs
unfolding check_coins
check_coins_ok seen [] e = (tt, tt)
check_coins_ok seen (c ∷ cs) e = ground (
  arith,
  check_coins_ok (coin_key c ∷ seen) cs,
  check_coins_seen (coin_key c) (coin_key c ∷ seen) cs,
  has_key_self (coin_key c) seen,
)

has_key-insert_coin :
    (k : Bytes) (c : Coin) (ds : List Coin)
    → has_key k (map coin_key (insert_coin c ds))
      ≡ (bytes_eq k (coin_key c) || has_key k (map coin_key ds))
unfolding has_key insert_coin
has_key-insert_coin k c [] = refl
has_key-insert_coin k c (d ∷ ds) = ground (arith, has_key-insert_coin k c ds)

insert_coin-IsDistinct :
    (c : Coin) (ds : List Coin) → IsDistinct (c ∷ ds) → IsDistinct (insert_coin c ds)
unfolding insert_coin has_key
insert_coin-IsDistinct c [] h = h
insert_coin-IsDistinct c (d ∷ ds) (hc, (hd, hs)) = ground (
  arith,
  insert_coin-IsDistinct c ds,
  has_key-insert_coin (coin_key d) c ds,
  bytes_eq_sym (coin_key c) (coin_key d),
)

has_key-sort_coins :
    (k : Bytes) (cs : List Coin)
    → has_key k (map coin_key (sort_coins cs)) ≡ has_key k (map coin_key cs)
unfolding sort_coins has_key
has_key-sort_coins k [] = refl
has_key-sort_coins k (c ∷ cs) =
    ground (arith, has_key-insert_coin k c (sort_coins cs), has_key-sort_coins k cs)

sort_coins-IsDistinct : (cs : List Coin) → IsDistinct cs → IsDistinct (sort_coins cs)
unfolding sort_coins
sort_coins-IsDistinct [] h = tt
sort_coins-IsDistinct (c ∷ cs) (h, hs) =
    insert_coin-IsDistinct c (sort_coins cs)
      (has_key-sort_coins (coin_key c) cs ∙ h, sort_coins-IsDistinct cs hs)

module _ (P : Coin → Type 0) where
  pub insert_coin-All : (c : Coin) (ds : List Coin) → P c → All P ds → All P (insert_coin c ds)
  unfolding insert_coin
  insert_coin-All c [] h hs = (h, hs)
  insert_coin-All c (d ∷ ds) h (hd, hs) = ground (arith, insert_coin-All c ds h hs)

  pub sort_coins-All : (cs : List Coin) → All P cs → All P (sort_coins cs)
  unfolding sort_coins
  sort_coins-All [] h = h
  sort_coins-All (c ∷ cs) (h, hs) = insert_coin-All c (sort_coins cs) h (sort_coins-All cs hs)

-- The coins that `orderedP2QPKCoins` returns are those it was given, each as often, in the order of
-- amount, ID and output number, and it has made sure that no two are one output and that every
-- amount is positive.
pub ordered_coins_ok :
    (coins ordered : List Coin)
    → ordered_coins coins ≡ ok ordered
    → Perm ordered coins × IsOrdered ordered × IsDistinct ordered × All IsPositive ordered
unfolding ordered_coins
ordered_coins_ok coins ordered h =
    let checked : check_coins [] coins ≡ ok tt = ground arith in
    let same : sort_coins coins ≡ ordered = ground arith in
    let (distinct, positive) = check_coins_ok [] coins checked in
    subst (λ (l : List Coin). Perm l coins × IsOrdered l × IsDistinct l × All IsPositive l) same
      (
        sort_coins-Perm coins,
        sort_coins-IsOrdered coins,
        sort_coins-IsDistinct coins distinct,
        sort_coins-All IsPositive coins positive,
      )
