-- ===== src/VirtualTable.antt =====
-- src/virtual_table.rs: the registry of virtual tables by name, over whatever implements the trait,
-- and the registry of each database (`get_virtual_table_registry` of src/state.rs).
use skvs.Prelude.{
  ℕ, String, Option, none, some, List, [], unwrap_or, nat_eq, string_eq, if◌then◌else◌,
}
use skvs.Prelude.Map.{Map, lookup, insert, remove, contains_key}
use skvs.Error.{SkvsError, Result, ok, err}
use skvs.Value.{Value, Row, RowId}

pub data ConstraintOperator : Type 0 where
  eq neq lt lte gt gte like glob match : ConstraintOperator

pub record Constraint : Type 0 where
  pub column : String
  pub operator : ConstraintOperator
  pub value : Value

-- The trait, for tables whose state is of type `A`: each call may change it.
pub record VirtualTable (A : Type 0) : Type 0 where
  pub name : A → String
  pub create : List String → A → Result (Unit {0}) × A
  pub drop : A → Result (Unit {0}) × A
  pub insert_row : Row → A → Result RowId × A
  pub update_row : RowId → Row → A → Result (Unit {0}) × A
  pub delete_row : RowId → A → Result (Unit {0}) × A
  pub select : List Constraint → A → Result (List Row) × A

module _ {T : Type 0} where
  abbrev pub new_registry : Map String T
  new_registry = []

  unfoldable pub register : String → T → Map String T → Result (Unit {0}) × Map String T
  register name table m =
      if contains_key name m then (err SkvsError.schema, m) else (ok tt, insert name table m)

  unfoldable pub get : String → Map String T → Option T
  get name m = lookup name m

  unfoldable pub unregister : String → Map String T → Option T × Map String T
  unregister name m = (lookup name m, remove name m)

  abbrev or_new : Option (Map String T) → Map ℕ (Map String T) → ℕ → Map ℕ (Map String T)
  or_new none all db = insert db new_registry all
  or_new (some m) all db = all

  -- The registry of a database, made when it is first asked for.
  unfoldable pub get_virtual_table_registry :
      ℕ → Map ℕ (Map String T) → Map String T × Map ℕ (Map String T)
  get_virtual_table_registry db all =
      (unwrap_or (lookup db all) new_registry, or_new (lookup db all) all db)
