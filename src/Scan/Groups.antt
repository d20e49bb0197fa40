-- ===== src/Scan/Groups.antt =====
-- deposits.go: the table of one address's deposits, by transaction ID.
use symbiont_wallet.Base.{
  ℕ, ◌+◌, ◌≡◌, refl, ◌∙◌, none, some, List, [], ◌∷◌, ◌||◌, false, map, All, arith, if◌then◌else◌,
}
use mathlib.Core.List.{Permᴰ}
use symbiont_wallet.Base.Bytes.{Bytes, bytes_eq, bytes_eq_iff}
use symbiont_wallet.Base.Int64.{ℤ, pos, pos_part}
use symbiont_wallet.Base.Keys.{has_key}
use symbiont_wallet.Base.Maps.{Map, lookup, insert, get_or, lookup-insert}

-- What a transaction brought, and what all of them did.
abbrev pub value_at : Bytes → Map ℤ → ℕ
value_at x g = pos_part (get_or (pos 0) (lookup x g))

abbrev pub group_sum : Map ℤ → ℕ
group_sum [] = 0
group_sum ((x, v) ∷ g) = pos_part v + group_sum g

-- Every key stands once, with an amount that is not negative.
abbrev pub IsGroup : Map ℤ → Type 0
IsGroup [] = Unit {0}
IsGroup ((x, v) ∷ g) = (lookup x g ≡ none) × (v ≡ pos (pos_part v)) × IsGroup g

-- The transactions of a table.
abbrev pub keys_of : Map ℤ → List Bytes
keys_of g = map (λ e. e.0) g

-- No key stands twice.
abbrev pub IsNodup : List Bytes → Type 0
IsNodup [] = Unit {0}
IsNodup (b ∷ bs) = (has_key b bs ≡ false) × IsNodup bs

pub has_key-insert :
    (x y : Bytes) (v : ℤ) (g : Map ℤ)
    → has_key x (keys_of (insert y v g)) ≡ (bytes_eq x y || has_key x (keys_of g))
unfolding insert has_key
has_key-insert x y v [] = refl
has_key-insert x y v ((z, w) ∷ g) =
    ground (arith, has_key-insert x y v g, bytes_eq_iff y z, bytes_eq_iff x z, bytes_eq_iff x y)

absent_key : (x : Bytes) (g : Map ℤ) → lookup x g ≡ none → has_key x (keys_of g) ≡ false
unfolding lookup has_key
absent_key x [] h = refl
absent_key x ((y, v) ∷ g) h = ground (arith, absent_key x g)

pub IsGroup-IsNodup : (g : Map ℤ) → IsGroup g → IsNodup (keys_of g)
IsGroup-IsNodup [] h = tt
IsGroup-IsNodup ((x, v) ∷ g) (fresh, n, h) = (absent_key x g fresh, IsGroup-IsNodup g h)

pub insert-IsGroup : (x : Bytes) (n : ℕ) (g : Map ℤ) → IsGroup g → IsGroup (insert x (pos n) g)
unfolding insert lookup
insert-IsGroup x n [] h = (refl, refl, tt)
insert-IsGroup x n ((y, v) ∷ g) (h, k, hs) = ground (
  arith,
  insert-IsGroup x n g hs,
  lookup-insert y x (pos n) g,
  bytes_eq_iff x y,
  bytes_eq_iff y x,
)

pub group_sum-insert :
    (x : Bytes) (w : ℕ) (g : Map ℤ)
    → group_sum (insert x (pos (value_at x g + w)) g) ≡ group_sum g + w
unfolding insert lookup
group_sum-insert x w [] = omega arith
group_sum-insert x w ((y, v) ∷ g) = ground (arith, group_sum-insert x w g)

pub value_at-natural :
    (x : Bytes) (g : Map ℤ) → IsGroup g → get_or (pos 0) (lookup x g) ≡ pos (value_at x g)
unfolding lookup
value_at-natural x [] h = refl
value_at-natural x ((y, v) ∷ g) (h, k, hs) = ground (arith, value_at-natural x g hs)

pub value_at-le : (x : Bytes) (g : Map ℤ) → (k : ℕ) × (group_sum g ≡ value_at x g + k)
unfolding lookup
value_at-le x [] = (0, omega arith)
value_at-le x ((y, v) ∷ g) =
    let (k, e) = value_at-le x g in
    (if bytes_eq x y then group_sum g else pos_part v + k, ground (arith, e))

-- Every entry is found under its key.
entries_with :
    (g h : Map ℤ)
    → IsGroup g
    → ((x : Bytes) (v : ℤ) → lookup x g ≡ some v → lookup x h ≡ some v)
    → All (λ e. lookup e.0 h ≡ some e.1) g
unfolding lookup
entries_with [] h k f = tt
entries_with ((x, v) ∷ g) h (fresh, n, k) f = (
  f x v (ground (arith, bytes_eq_iff x x)),
  entries_with g h k (λ y w e. f y w (ground (arith, bytes_eq_iff y x))),
)

pub entries_found : (g : Map ℤ) → IsGroup g → All (λ e. lookup e.0 g ≡ some e.1) g
entries_found g h = entries_with g g h (λ x v e. e)

-- None of these depends on the order.
pub has_key-perm :
    (x : Bytes) {g h : Map ℤ} → Permᴰ g h → has_key x (keys_of g) ≡ has_key x (keys_of h)
unfolding has_key
has_key-perm x Permᴰ.nil = refl
has_key-perm x (Permᴰ.cons e p) = ground (arith, e, has_key-perm x p)
has_key-perm x (Permᴰ.swap e k) = ground (arith, e, k)
has_key-perm x (Permᴰ.trans p q) = has_key-perm x p ∙ has_key-perm x q

pub IsNodup-perm : {g h : Map ℤ} → Permᴰ g h → IsNodup (keys_of h) → IsNodup (keys_of g)
unfolding has_key
IsNodup-perm Permᴰ.nil n = tt
IsNodup-perm (Permᴰ.cons {b = b} e p) (fresh, n) =
    (ground (arith, e, has_key-perm (b.0) p, fresh), IsNodup-perm p n)
IsNodup-perm (Permᴰ.swap {a} {b} e k) (other, (fresh, n)) = (
  ground (arith, e, k, bytes_eq_iff (a.0) (b.0), bytes_eq_iff (b.0) (a.0)),
  (ground (arith, e, k), n),
)
IsNodup-perm (Permᴰ.trans p q) n = IsNodup-perm p (IsNodup-perm q n)

pub group_sum-perm : {g h : Map ℤ} → Permᴰ g h → group_sum g ≡ group_sum h
group_sum-perm Permᴰ.nil = refl
group_sum-perm (Permᴰ.cons e p) = ground (arith, e, group_sum-perm p)
group_sum-perm (Permᴰ.swap e k) = ground (arith, e, k)
group_sum-perm (Permᴰ.trans p q) = group_sum-perm p ∙ group_sum-perm q
