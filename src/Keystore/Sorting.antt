-- ===== src/Keystore/Sorting.antt =====
-- keystore.go and history.go: a sort by insertion returns what it was given.
use symbiont_wallet.Base.{Bool, true, false, List, [], ◌∷◌, if◌then◌else◌}
use mathlib.Core.List.{Perm}
use mathlib.Core.List.Perm
use symbiont_wallet.Keystore.Queries.{insert_by, sort_by}

module _ {A : Type 0} (before : A → A → Bool) where
  inserted :
      (b : Bool) (a c : A) (rest cs : List A)
      → Perm rest (a ∷ cs)
      → Perm (if b then c ∷ rest else a ∷ c ∷ cs) (a ∷ c ∷ cs)
  inserted true a c rest cs h = Perm.trans (Perm.cons c h) (Perm.swap a c cs)
  inserted false a c rest cs h = Perm.refl (a ∷ c ∷ cs)

  insert_by-Perm : (a : A) (cs : List A) → Perm (insert_by before a cs) (a ∷ cs)
  unfolding insert_by
  insert_by-Perm a [] = Perm.refl (a ∷ [])
  insert_by-Perm a (c ∷ cs) =
      inserted (before c a) a c (insert_by before a cs) cs (insert_by-Perm a cs)

  pub sort_by-Perm : (cs : List A) → Perm (sort_by before cs) cs
  unfolding sort_by
  sort_by-Perm [] = Perm.refl []
  sort_by-Perm (c ∷ cs) =
      Perm.trans (insert_by-Perm c (sort_by before cs)) (Perm.cons c (sort_by-Perm cs))
