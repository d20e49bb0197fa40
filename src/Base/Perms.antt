-- ===== src/Base/Perms.antt =====
-- Permutations, and what this library measures and selects by native numbers and Booleans.
use Prim.Native.Nat.{ℕ, ◌+◌}
use mathlib.Core.Path.{◌≡◌, refl, ap, subst, ◌∙◌}
use mathlib.Core.Bool.{Bool, true, false}
use mathlib.Core.Logic.{∥∥₁_elim}
use mathlib.Core.List.{List, [], ◌∷◌, map, Perm, Permᴰ}
use mathlib.Core.List.Perm
use native.Mathlib.Nat.{ℕ_set}
use native.Mathlib.Omega.{arith}
use symbiont_wallet.Base.Tests.{if◌then◌else◌}
use symbiont_wallet.Base.Lists.{length, keep}

module _ {A : Type 0} where
  kept_cons :
      (b : Bool) (a : A) {xs ys : List A}
      → Perm xs ys
      → Perm (if b then a ∷ xs else xs) (if b then a ∷ ys else ys)
  kept_cons true a h = Perm.cons a h
  kept_cons false a h = h

  kept_swap :
      (b c : Bool) (x y : A) (l : List A)
      → Perm
          (if b then x ∷ (if c then y ∷ l else l) else (if c then y ∷ l else l))
          (if c then y ∷ (if b then x ∷ l else l) else (if b then x ∷ l else l))
  kept_swap true true x y l = Perm.swap y x l
  kept_swap true false x y l = Perm.refl (x ∷ l)
  kept_swap false true x y l = Perm.refl (y ∷ l)
  kept_swap false false x y l = Perm.refl l

  keep-Permᴰ : (p : A → Bool) {xs ys : List A} → Permᴰ xs ys → Perm (keep p xs) (keep p ys)
  keep-Permᴰ p Permᴰ.nil = Perm.refl []
  keep-Permᴰ p (Permᴰ.cons {a} {b} {l₁} {l₂} e h) =
      subst (λ z. Perm (keep p (a ∷ l₁)) (keep p (z ∷ l₂))) e (kept_cons (p a) a (keep-Permᴰ p h))
  keep-Permᴰ p (Permᴰ.swap {a} {b} {a'} {b'} {l} e k) =
      subst (λ z. Perm (keep p (a ∷ b ∷ l)) (keep p (z ∷ b' ∷ l))) k
        (subst (λ z. Perm (keep p (a ∷ b ∷ l)) (keep p (b ∷ z ∷ l))) e
          (kept_swap (p a) (p b) a b (keep p l)))
  keep-Permᴰ p (Permᴰ.trans h k) = Perm.trans (keep-Permᴰ p h) (keep-Permᴰ p k)

  pub keep-Perm : (p : A → Bool) {xs ys : List A} → Perm xs ys → Perm (keep p xs) (keep p ys)
  keep-Perm p h = ∥∥₁_elim h (hlevel) (λ k. keep-Permᴰ p k)

  -- A sum over a list does not depend on its order.
  module _ (f : A → ℕ) where
    abbrev pub sum_of : List A → ℕ
    sum_of [] = 0
    sum_of (x ∷ xs) = f x + sum_of xs

    sum_of-Permᴰ : {xs ys : List A} → Permᴰ xs ys → sum_of xs ≡ sum_of ys
    sum_of-Permᴰ Permᴰ.nil = refl
    sum_of-Permᴰ (Permᴰ.cons e h) = omega (arith, ap f e, sum_of-Permᴰ h)
    sum_of-Permᴰ (Permᴰ.swap e k) = omega (arith, ap f e, ap f k)
    sum_of-Permᴰ (Permᴰ.trans h k) = sum_of-Permᴰ h ∙ sum_of-Permᴰ k

    pub sum_of-Perm : {xs ys : List A} → Perm xs ys → sum_of xs ≡ sum_of ys
    sum_of-Perm h = ∥∥₁_elim h (ℕ_set _ _) (λ k. sum_of-Permᴰ k)

  length-Permᴰ : {xs ys : List A} → Permᴰ xs ys → length xs ≡ length ys
  length-Permᴰ Permᴰ.nil = refl
  length-Permᴰ (Permᴰ.cons e h) = omega (arith, length-Permᴰ h)
  length-Permᴰ (Permᴰ.swap e k) = omega arith
  length-Permᴰ (Permᴰ.trans h k) = length-Permᴰ h ∙ length-Permᴰ k

  pub length-Perm : {xs ys : List A} → Perm xs ys → length xs ≡ length ys
  length-Perm h = ∥∥₁_elim h (ℕ_set _ _) (λ k. length-Permᴰ k)

  pub keep-keep_not :
      (p q : A → Bool)
      → ((a : A) → q a ≡ true → p a ≡ false)
      → (xs : List A) → keep p (keep q xs) ≡ []
  keep-keep_not p q h [] = refl
  keep-keep_not p q h (x ∷ xs) = ground (arith, h x, keep-keep_not p q h xs)

  pub keep-map :
      {B : Type 0} (f : A → B) (p : B → Bool) (xs : List A)
      → keep p (map f xs) ≡ map f (keep (λ a. p (f a)) xs)
  keep-map f p [] = refl
  keep-map f p (x ∷ xs) = ground (arith, keep-map f p xs)
