-- ===== src/BTree.antt =====
-- The ordered map behind an index: a BTreeMap whose keys are values ordered by `Value::compare`
-- (`IndexKey` of src/index.rs), as a list in ascending order of the keys.
pub mod Ordered
use Prim.Native.Nat.{Ordering}
use skvs.Prelude.{Bool, true, false, not, ◌&&◌, Option, none, some, List, [], ◌∷◌, ◌++◌}
use skvs.Externs.{Externs}
use skvs.Value.{Value, RowId, compare_values}

abbrev pub IndexStore : Type 0
IndexStore = List (Value × List RowId)

-- `std::ops::Bound`
pub data Bound : Type 0 where
  included : Value → Bound
  excluded : Value → Bound
  unbounded : Bound

module _ (x : Externs) where
  unfoldable pub tree_get : Value → IndexStore → Option (List RowId)
  tree_get k [] = none
  tree_get k ((j, ids) ∷ m) = elim (compare_values x k j) [
    | Ordering.lt ↦ tree_get k m
    | Ordering.eq ↦ some ids
    | Ordering.gt ↦ tree_get k m
  ]

  -- A new key goes before the first greater one; an equal key stays, with its ids replaced.
  unfoldable pub tree_put : Value → List RowId → IndexStore → IndexStore
  tree_put k ids [] = (k, ids) ∷ []
  tree_put k ids ((j, js) ∷ m) = elim (compare_values x k j) [
    | Ordering.lt ↦ (k, ids) ∷ (j, js) ∷ m
    | Ordering.eq ↦ (j, ids) ∷ m
    | Ordering.gt ↦ (j, js) ∷ tree_put k ids m
  ]

  unfoldable pub tree_remove : Value → IndexStore → IndexStore
  tree_remove k [] = []
  tree_remove k ((j, js) ∷ m) = elim (compare_values x k j) [
    | Ordering.lt ↦ (j, js) ∷ tree_remove k m
    | Ordering.eq ↦ m
    | Ordering.gt ↦ (j, js) ∷ tree_remove k m
  ]

  abbrev pub above : Bound → Value → Bool
  above (included v) k = elim (compare_values x k v) [
    | Ordering.lt ↦ false
    | Ordering.eq ↦ true
    | Ordering.gt ↦ true
  ]
  above (excluded v) k = elim (compare_values x k v) [
    | Ordering.lt ↦ false
    | Ordering.eq ↦ false
    | Ordering.gt ↦ true
  ]
  above unbounded k = true

  abbrev pub below : Bound → Value → Bool
  below (included v) k = elim (compare_values x k v) [
    | Ordering.lt ↦ true
    | Ordering.eq ↦ true
    | Ordering.gt ↦ false
  ]
  below (excluded v) k = elim (compare_values x k v) [
    | Ordering.lt ↦ true
    | Ordering.eq ↦ false
    | Ordering.gt ↦ false
  ]
  below unbounded k = true

  -- The ends on which `BTreeMap::range` panics: the lower above the upper, or both excluded and the
  -- same.
  abbrev pub crosses : Bound → Bound → Bool
  crosses (included a) (included b) = elim (compare_values x a b) [
    | Ordering.lt ↦ false
    | Ordering.eq ↦ false
    | Ordering.gt ↦ true
  ]
  crosses (included a) (excluded b) = elim (compare_values x a b) [
    | Ordering.lt ↦ false
    | Ordering.eq ↦ false
    | Ordering.gt ↦ true
  ]
  crosses (excluded a) (included b) = elim (compare_values x a b) [
    | Ordering.lt ↦ false
    | Ordering.eq ↦ false
    | Ordering.gt ↦ true
  ]
  crosses (excluded a) (excluded b) = elim (compare_values x a b) [
    | Ordering.lt ↦ false
    | Ordering.eq ↦ true
    | Ordering.gt ↦ true
  ]
  crosses (included a) unbounded = false
  crosses (excluded a) unbounded = false
  crosses unbounded upper = false

  -- The ids of a range whose ends do not cross, in the order of the keys.
  unfoldable pub tree_range : Bound → Bound → IndexStore → List RowId
  tree_range lower upper [] = []
  tree_range lower upper ((k, ids) ∷ m) =
      let rest = tree_range lower upper m in
      elim (above lower k && below upper k) [ true ↦ ids ++ rest | false ↦ rest ]
