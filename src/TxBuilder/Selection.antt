-- ===== src/TxBuilder/Selection.antt =====
-- txbuilder.go: which coins `buildP2QPKCoinSelection` leaves unselected.
use symbiont_wallet.Base.{
  ◌≡◌, refl, ap, ◌∙◌, Bool, true, false, not, ◌||◌, List, [], ◌∷◌, ◌++◌, map, keep, All, All-both,
  arith, append-nil,
}
use symbiont_wallet.Base.Bytes.{Bytes, bytes_eq, bytes_eq_refl}
use symbiont_wallet.Base.Keys.{has_key}
use symbiont_wallet.TxBuilder.Types.{Coin}
use symbiont_wallet.TxBuilder.Coins.{coin_key, unchosen}
use symbiont_wallet.TxBuilder.Ordering.{IsDistinct, bytes_eq_sym}

pub keep-append : (p : Coin → Bool) (xs ys : List Coin) → keep p (xs ++ ys) ≡ keep p xs ++ keep p ys
keep-append p [] ys = refl
keep-append p (x ∷ xs) ys = ground (arith, keep-append p xs ys)

pub keep_none : (p : Coin → Bool) (xs : List Coin) → All (λ c. p c ≡ false) xs → keep p xs ≡ []
keep_none p [] h = refl
keep_none p (x ∷ xs) (h, hs) = ground (arith, keep_none p xs hs)

pub keep-All : (p : Coin → Bool) (xs : List Coin) → All (λ c. p c ≡ true) xs → keep p xs ≡ xs
keep-All p [] h = refl
keep-All p (x ∷ xs) (h, hs) = ground (arith, keep-All p xs hs)

has_key-append :
    (k : Bytes) (xs ys : List Coin)
    → has_key k (map coin_key (xs ++ ys))
      ≡ (has_key k (map coin_key xs) || has_key k (map coin_key ys))
unfolding has_key
has_key-append k [] ys = refl
has_key-append k (x ∷ xs) ys = ground (arith, has_key-append k xs ys)

-- A coin of a list has its key among the list's.
pub own_keys :
    (keys : List Bytes) (xs : List Coin)
    → ((k : Bytes) → has_key k (map coin_key xs) ≡ true → has_key k keys ≡ true)
    → All (λ c. not (has_key (coin_key c) keys) ≡ false) xs
unfolding has_key
own_keys keys [] h = tt
own_keys keys (x ∷ xs) h = (
  ground (arith, h (coin_key x), bytes_eq_refl (coin_key x)),
  own_keys keys xs (λ k e. h k (ground (arith, e))),
)

other_keys :
    (k : Bytes) (ys : List Coin)
    → has_key k (map coin_key ys) ≡ false
    → All (λ c. bytes_eq (coin_key c) k ≡ false) ys
unfolding has_key
other_keys k [] h = tt
other_keys k (y ∷ ys) h =
    (ground (arith, bytes_eq_sym k (coin_key y)), other_keys k ys (ground arith))

-- Of two parts of a list without repeated keys, neither has a key of the other.
earlier_keys :
    (xs ys : List Coin)
    → IsDistinct (xs ++ ys)
    → All (λ c. not (has_key (coin_key c) (map coin_key xs)) ≡ true) ys
unfolding has_key
earlier_keys [] [] h = tt
earlier_keys [] (y ∷ ys) (h, hs) = (refl, earlier_keys [] ys hs)
earlier_keys (x ∷ xs) ys (h, hs) =
    let apart = other_keys (coin_key x) ys (ground (arith, has_key-append (coin_key x) xs ys)) in
    All-both (λ c e k. ground (arith, e, k)) ys apart (earlier_keys xs ys hs)

later_keys :
    (xs ys : List Coin)
    → IsDistinct (xs ++ ys)
    → All (λ c. not (has_key (coin_key c) (map coin_key ys)) ≡ true) xs
later_keys [] ys h = tt
later_keys (x ∷ xs) ys (h, hs) =
    (ground (arith, has_key-append (coin_key x) xs ys), later_keys xs ys hs)

pub unchosen-prefix : (xs ys : List Coin) → IsDistinct (xs ++ ys) → unchosen (xs ++ ys) xs ≡ ys
unfolding unchosen
unchosen-prefix xs ys h =
    let p : Coin → Bool = λ c. not (has_key (coin_key c) (map coin_key xs)) in
    keep-append p xs ys
    ∙ ap (λ (l : List Coin). l ++ keep p ys)
        (keep_none p xs (own_keys (map coin_key xs) xs (λ k e. e)))
    ∙ keep-All p ys (earlier_keys xs ys h)

pub unchosen-suffix : (xs ys : List Coin) → IsDistinct (xs ++ ys) → unchosen (xs ++ ys) ys ≡ xs
unfolding unchosen
unchosen-suffix xs ys h =
    let p : Coin → Bool = λ c. not (has_key (coin_key c) (map coin_key ys)) in
    keep-append p xs ys
    ∙ ap (λ (l : List Coin). keep p xs ++ l)
        (keep_none p ys (own_keys (map coin_key ys) ys (λ k e. e)))
    ∙ append-nil (keep p xs)
    ∙ keep-All p xs (later_keys xs ys h)
