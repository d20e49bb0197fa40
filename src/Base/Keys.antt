-- ===== src/Base/Keys.antt =====
-- Go's `map[string]struct{}`.
use mathlib.Core.Bool.{Bool, false, ◌||◌}
use mathlib.Core.List.{List, [], ◌∷◌}
use symbiont_wallet.Base.Bytes.{Bytes, bytes_eq}

-- Membership in a `map[string]struct{}`, which is the list of its keys.
unfoldable pub has_key : Bytes → List Bytes → Bool
has_key k [] = false
has_key k (j ∷ s) = bytes_eq k j || has_key k s
