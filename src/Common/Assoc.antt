-- ===== src/Common/Assoc.antt =====
-- A Go map with string keys as an association list. The program never depends on the order of a
-- range over such a map.
use mathlib.Core.Path.{◌≡◌, refl}
use mathlib.Core.Option.{Option, none, some}
use mathlib.Core.List.{List, [], ◌∷◌}
use Prim.Native.String.{String}
use native.Mathlib.Omega.{arith}
use text.Mathlib.Text.{◌==◌ as str_eq}
use text.Mathlib.TextEquality.{eq_iff}
use scrap.Common.Tests.{if◌then◌else◌}

module _ {ℓ} {V : Type ℓ} where
  -- m[key]
  unfoldable pub lookup : String → List (String × V) → Option V
  lookup key [] = none
  lookup key ((other, v) ∷ entries) = if str_eq other key then some v else lookup key entries

  -- m[key] = v
  unfoldable pub insert : String → V → List (String × V) → List (String × V)
  insert key v [] = (key, v) ∷ []
  insert key v ((other, w) ∷ entries) =
      if str_eq other key then (key, v) ∷ entries else (other, w) ∷ insert key v entries

  -- delete(m, key)
  unfoldable pub delete : String → List (String × V) → List (String × V)
  delete key [] = []
  delete key ((other, v) ∷ entries) =
      let rest = delete key entries in if str_eq other key then rest else (other, v) ∷ rest

  pub lookup-insert :
      (key other : String) (v : V) (entries : List (String × V))
      → lookup other (insert key v entries)
        ≡ (if str_eq key other then some v else lookup other entries)
  unfolding lookup insert
  lookup-insert key other v [] = refl
  lookup-insert key other v ((i, w) ∷ entries) =
      ground
        (arith, eq_iff key other, eq_iff i key, eq_iff i other, lookup-insert key other v entries)

  pub lookup-delete :
      (key other : String) (entries : List (String × V))
      → lookup other (delete key entries)
        ≡ (if str_eq key other then none else lookup other entries)
  unfolding lookup delete
  lookup-delete key other [] = ground arith
  lookup-delete key other ((i, v) ∷ entries) =
      ground
        (arith, eq_iff key other, eq_iff i key, eq_iff i other, lookup-delete key other entries)

pub ruleset assoc_laws = (lookup-insert, lookup-delete)
