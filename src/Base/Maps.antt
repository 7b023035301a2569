-- ===== src/Base/Maps.antt =====
-- Go maps with text keys, as association lists. The order of entries stands for no order in the
-- program: what is read from a map is read through `lookup`.
use Prim.Native.String.{String}
use mathlib.Core.Path.{◌≡◌, refl}
use mathlib.Core.Logic.{◌≢◌}
use mathlib.Core.Option.{Option, none, some}
use mathlib.Core.List.{List, [], ◌∷◌}
use native.Mathlib.Omega.{arith}
use text.Mathlib.Text.{◌==◌}
use text.Mathlib.TextEquality.{eq_iff}
use mcp_from_scratch.Base.Tests.{if◌then◌else◌}

abbrev pub Map {ℓ} : Type ℓ → Type ℓ
Map V = List (String × V)

module _ {ℓ} {V : Type ℓ} where
  unfoldable pub lookup : String → Map V → Option V
  lookup key [] = none
  lookup key ((found, value) ∷ rest) = if found == key then some value else lookup key rest

  -- rest[key] = value
  unfoldable pub insert : String → V → Map V → Map V
  insert key value [] = (key, value) ∷ []
  insert key value ((found, old) ∷ rest) =
      if found == key then (key, value) ∷ rest else (found, old) ∷ insert key value rest

  -- delete(rest, key)
  unfoldable pub remove : String → Map V → Map V
  remove key [] = []
  remove key ((found, value) ∷ rest) =
      let kept = remove key rest in if found == key then kept else (found, value) ∷ kept

  pub lookup-insert :
      (key asked : String) (value : V) (entries : Map V)
      → lookup asked (insert key value entries)
        ≡ (if key == asked then some value else lookup asked entries)
  unfolding lookup insert
  lookup-insert key asked value [] = refl
  lookup-insert key asked value ((found, old) ∷ rest) = ground (
    arith,
    lookup-insert key asked value rest,
    eq_iff found key,
    eq_iff found asked,
    eq_iff key asked,
  )

  pub lookup-remove :
      (key asked : String) (entries : Map V)
      → lookup asked (remove key entries) ≡ (if key == asked then none else lookup asked entries)
  unfolding lookup remove
  lookup-remove key asked [] = ground arith
  lookup-remove key asked ((found, old) ∷ rest) =
      ground (
        arith,
        lookup-remove key asked rest,
        eq_iff found key,
        eq_iff found asked,
        eq_iff key asked,
      )

  pub lookup-insert_ne :
      {k j : String} (v : V) (m : Map V) → k ≢ j → lookup j (insert k v m) ≡ lookup j m
  lookup-insert_ne {k} {j} v m h = ground (arith, lookup-insert k j v m, eq_iff k j)

  pub lookup-remove_ne : {k j : String} (m : Map V) → k ≢ j → lookup j (remove k m) ≡ lookup j m
  lookup-remove_ne {k} {j} m h = ground (arith, lookup-remove k j m, eq_iff k j)

pub ruleset map_laws = (lookup-insert, lookup-remove)
