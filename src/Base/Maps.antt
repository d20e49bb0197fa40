-- ===== src/Base/Maps.antt =====
-- Go's `map[string]V`, as the list of its entries in the order of their first write.
use mathlib.Core.Path.{◌≡◌, refl}
use mathlib.Core.List.{List, [], ◌∷◌}
use mathlib.Core.Option.{Option, none, some}
use native.Mathlib.Omega.{arith}
use symbiont_wallet.Base.Tests.{if◌then◌else◌}
use symbiont_wallet.Base.Bytes.{Bytes, bytes_eq, bytes_eq_iff}

abbrev pub Map : Type 0 → Type 0
Map V = List (Bytes × V)

module _ {V : Type 0} where
  unfoldable pub lookup : Bytes → Map V → Option V
  lookup k [] = none
  lookup k ((j, v) ∷ m) = if bytes_eq k j then some v else lookup k m

  -- `m[k] = v`.
  unfoldable pub insert : Bytes → V → Map V → Map V
  insert k v [] = (k, v) ∷ []
  insert k v ((j, w) ∷ m) = if bytes_eq k j then (j, v) ∷ m else (j, w) ∷ insert k v m

  -- `m[k]`, which is the zero value `z` for a key that is missing.
  abbrev pub get_or : V → Option V → V
  get_or z none = z
  get_or z (some v) = v

  pub lookup-insert :
      (j k : Bytes) (v : V) (m : Map V)
      → lookup j (insert k v m) ≡ (if bytes_eq j k then some v else lookup j m)
  unfolding lookup insert
  lookup-insert j k v [] = refl
  lookup-insert j k v ((i, w) ∷ m) =
      ground (arith, bytes_eq_iff j k, bytes_eq_iff k i, bytes_eq_iff j i, lookup-insert j k v m)
