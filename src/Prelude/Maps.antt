-- ===== src/Prelude/Maps.antt =====
-- Go's maps with text keys, as association lists with at most one entry for a key.
use mathlib.Core.Path.{◌≡◌, refl}
use mathlib.Core.Option.{Option, none, some}
use mathlib.Core.List.{List, [], ◌∷◌}
use native.Mathlib.Omega.{arith}
use Prim.Native.String.{String}
use text.Mathlib.Text.{◌==◌}
use text.Mathlib.TextEquality.{eq_iff}
use cluster_api_provider_kub.Prelude.Tests.{if◌then◌else◌}

module _ {ℓ} {Value : Type ℓ} where
  -- `v, ok := m[key]`
  unfoldable pub lookup : String → List (String × Value) → Option Value
  lookup key [] = none
  lookup key (entry ∷ rest) = if entry.0 == key then some entry.1 else lookup key rest

  -- `m[key] = value`
  unfoldable pub insert : String → Value → List (String × Value) → List (String × Value)
  insert key value [] = (key, value) ∷ []
  insert key value (entry ∷ rest) =
      let later = insert key value rest in
      if entry.0 == key then (key, value) ∷ rest else entry ∷ later

  -- An assignment is read back at its key, and changes no other.
  pub lookup-insert :
      (key other : String) (value : Value) (entries : List (String × Value))
      → lookup other (insert key value entries)
        ≡ (if key == other then some value else lookup other entries)
  unfolding lookup insert
  lookup-insert key other value [] = refl
  lookup-insert key other value (entry ∷ rest) =
      let before = lookup-insert key other value rest in
      ground (arith, eq_iff entry.0 other, eq_iff entry.0 key, eq_iff key other, before)
