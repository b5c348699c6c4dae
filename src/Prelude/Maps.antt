-- ===== src/Prelude/Maps.antt =====
-- std::unordered_map with string keys, as an association list.
use Prim.Native.String.{String}
use mathlib.Core.Path.{◌≡◌, refl}
use mathlib.Core.Bool.{Bool}
use mathlib.Core.List.{List, [], ◌∷◌}
use mathlib.Core.Option.{Option, none, some}
use native.Mathlib.Omega.{arith}
use text.Mathlib.Text.{◌==◌}
use text.Mathlib.TextEquality.{eq_iff}
use gexecutor.Prelude.Tests.{if◌then◌else◌}

abbrev pub str_eq : String → String → Bool
str_eq a b = a == b

module _ {ℓ} {V : Type ℓ} where
  -- An entry that is there keeps its place.
  unfoldable pub insert : (key : String) (value : V) → List (String × V) → List (String × V)
  insert key value [] = (key, value) ∷ []
  insert key value ((name, old) ∷ entries) =
      if str_eq name key then (name, value) ∷ entries else (name, old) ∷ insert key value entries

  pub erase : (key : String) → List (String × V) → List (String × V)
  erase key [] = []
  erase key ((name, value) ∷ entries) =
      if str_eq name key then erase key entries else (name, value) ∷ erase key entries

  unfoldable pub lookup : (key : String) → List (String × V) → Option V
  lookup key [] = none
  lookup key ((name, value) ∷ entries) = if str_eq name key then some value else lookup key entries

  -- What every key finds after an insertion and after an erasure of the key k.
  pub lookup-insert :
      (k key : String) (value : V) (entries : List (String × V))
      → lookup key (insert k value entries)
        ≡ (if str_eq k key then some value else lookup key entries)
  unfolding insert lookup
  lookup-insert k key value [] = refl
  lookup-insert k key value ((name, old) ∷ entries) =
      ground
        (arith, lookup-insert k key value entries, eq_iff name k, eq_iff name key, eq_iff k key)

  pub lookup-erase :
      (k key : String) (entries : List (String × V))
      → lookup key (erase k entries) ≡ (if str_eq k key then none else lookup key entries)
  unfolding erase lookup
  lookup-erase k key [] = ground arith
  lookup-erase k key ((name, value) ∷ entries) =
      ground (arith, lookup-erase k key entries, eq_iff name k, eq_iff name key, eq_iff k key)
