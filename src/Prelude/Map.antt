-- ===== src/Prelude/Map.antt =====
-- The maps of the program (DashMap, HashMap, IndexMap) as association lists in insertion order,
-- which is the order that an IndexMap promises; the other two promise none.
use mathlib.Core.Path.{◌≡◌, refl}
use mathlib.Core.Bool.{Bool}
use mathlib.Core.Option.{Option, none, some}
use mathlib.Core.List.{List, [], ◌∷◌}
use native.Mathlib.Omega.{arith}
use skvs.Prelude.Tests.{if◌then◌else◌, is_some}
use skvs.Prelude.Eq.{KeyEq, ◌==◌}

abbrev pub Map {ℓ κ} : Type ℓ → Type κ → Type (ℓ ⊔ κ)
Map K V = List (K × V)

module _ {ℓ κ} {K : Type ℓ} {V : Type κ} where
  abbrev pub keys : Map K V → List K
  keys [] = []
  keys ((k, v) ∷ m) = k ∷ keys m

  abbrev pub values : Map K V → List V
  values [] = []
  values ((k, v) ∷ m) = v ∷ values m

module _ {ℓ κ} {K : Type ℓ} {V : Type κ} ⦃e : KeyEq K⦄ where
  unfoldable pub lookup : K → Map K V → Option V
  lookup key [] = none
  lookup key ((other, value) ∷ rest) = if other == key then some value else lookup key rest

  abbrev pub contains_key : K → Map K V → Bool
  contains_key key m = is_some (lookup key m)

  -- A key that is there keeps its place.
  unfoldable pub insert : K → V → Map K V → Map K V
  insert key value [] = (key, value) ∷ []
  insert key value ((other, old) ∷ rest) =
      if other == key then (other, value) ∷ rest else (other, old) ∷ insert key value rest

  unfoldable pub remove : K → Map K V → Map K V
  remove key [] = []
  remove key ((other, old) ∷ rest) =
      let left = remove key rest in if other == key then left else (other, old) ∷ left

  pub lookup-nil : (key : K) → lookup key [] ≡ none
  unfolding lookup
  lookup-nil key = refl

  pub lookup-remove :
      (key asked : K) (m : Map K V)
      → lookup asked (remove key m) ≡ (if key == asked then none else lookup asked m)
  unfolding lookup remove
  lookup-remove key asked [] = ground arith
  lookup-remove key asked ((other, old) ∷ rest) = ground (
    arith,
    lookup-remove key asked rest,
    e.same_key_iff other key,
    e.same_key_iff other asked,
    e.same_key_iff key asked,
  )

  pub lookup-insert :
      (key asked : K) (value : V) (m : Map K V)
      → lookup asked (insert key value m) ≡ (if key == asked then some value else lookup asked m)
  unfolding insert lookup
  lookup-insert key asked value [] = refl
  lookup-insert key asked value ((other, old) ∷ rest) = ground (
    arith,
    lookup-insert key asked value rest,
    e.same_key_iff other key,
    e.same_key_iff other asked,
    e.same_key_iff key asked,
  )

pub ruleset map_laws = (lookup-nil, lookup-insert, lookup-remove)
