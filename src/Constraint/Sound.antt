-- ===== src/Constraint/Sound.antt =====
-- src/constraint.rs: what a row that the constraints let through satisfies.
use mathlib.Core.List.{Memᴰ}
use skvs.Prelude.{
  ℕ, String, true, false, ◌||◌, ◌≡◌, ◌≢◌, ap, inl, inr, none, some, List, [], ◌∷◌, find, nat_eq,
  string_eq, nat_beq_iff, Option-cases, arith,
}
use skvs.Prelude.Map.{Map, lookup}
use skvs.Error.{ok}
use skvs.Value.{Value, Row, RowId, is_null}
use skvs.Schema.{ColumnDef, TableSchema}
use skvs.State.{KvsState, Store, get_table_store}
use skvs.Sql.Env.{Env}
use skvs.Constraint.{
  check_not_null, missing_or_null, single_column, has_value, has_values, exists_in,
  value_exists_elsewhere, check_unique, check_groups, check_foreign_keys, check_columns,
  check_table, validate_constraints,
}

check_not_null-ok :
    (row : Row) (cols : Map String ColumnDef) (name : String) (def : ColumnDef)
    → check_not_null row cols ≡ ok tt
    → Memᴰ (name, def) cols
    → def.not_null ≡ true
    → missing_or_null (lookup name row) ≡ false
unfolding check_not_null
check_not_null-ok row [] name def h m k = elim m [ ]
check_not_null-ok row ((n, d) ∷ cols) name def h (Memᴰ.head e) k =
    ground (arith, ap (λ c. c.0) e, ap (λ c. c.1) e)
check_not_null-ok row ((n, d) ∷ cols) name def h (Memᴰ.tail m) k =
    check_not_null-ok row cols name def (ground arith) m k

module _ (x : Env) (s : KvsState) (db : ℕ) where
  -- The checks all hold of a row that is let through.
  record Passed (schema : TableSchema) (row : Row) (r : RowId) : Type 0 where
    not_null : check_not_null row schema.columns ≡ ok tt
    unique : check_unique x s db schema row r schema.columns ≡ ok tt
    groups : check_groups x s db schema row r schema.unique_groups ≡ ok tt
    foreign_keys : check_foreign_keys x s db row schema.foreign_keys ≡ ok tt
    columns : check_columns x s db row schema.columns ≡ ok tt
    table : check_table x s db row schema.table_checks ≡ ok tt

  validate_constraints-ok :
      (schema : TableSchema) (row : Row) (r : RowId)
      → validate_constraints x s db schema row r ≡ ok tt
      → Passed schema row r
  unfolding validate_constraints
  validate_constraints-ok schema row r h = record {
    not_null = ground arith;
    unique = ground arith;
    groups = ground arith;
    foreign_keys = ground arith;
    columns = ground arith;
    table = ground arith;
  }

  check_unique-ok :
      (schema : TableSchema) (row : Row) (r : RowId) (cols : Map String ColumnDef) (name : String)
      (def : ColumnDef) (v : Value)
      → check_unique x s db schema row r cols ≡ ok tt
      → Memᴰ (name, def) cols
      → (def.unique || def.primary_key) ≡ true
      → lookup name row ≡ some v
      → is_null v ≡ false
      → value_exists_elsewhere x s db schema (name ∷ []) (v ∷ []) r ≡ false
  unfolding check_unique
  check_unique-ok schema row r [] name def v h m k l i = elim m [ ]
  check_unique-ok schema row r ((n, d) ∷ cols) name def v h (Memᴰ.head e) k l i =
      ground (arith, ap (λ c. c.0) e, ap (λ c. c.1) e)
  check_unique-ok schema row r ((n, d) ∷ cols) name def v h (Memᴰ.tail m) k l i =
      check_unique-ok schema row r cols name def v (ground arith) m k l i

  exists_in-row :
      (columns : List String) (values : List Value) (r : RowId) (store : Store) (r' : RowId)
      (row : Row)
      → exists_in x s db columns values r store ≡ false
      → Memᴰ (r', row) store
      → r' ≢ r
      → has_values x s db columns values row ≡ false
  unfolding exists_in
  exists_in-row columns values r [] r' row h m n = elim m [ ]
  exists_in-row columns values r ((q, w) ∷ store) r' row h (Memᴰ.head e) n =
      ground (arith, ap (λ c. c.0) e, ap (λ c. c.1) e, nat_beq_iff r' r)
  exists_in-row columns values r ((q, w) ∷ store) r' row h (Memᴰ.tail m) n =
      exists_in-row columns values r store r' row (ground arith) m n

  -- A row that the constraints let through has a value that is not NULL in every NOT NULL column.
  pub validate_constraints-not_null :
      (schema : TableSchema) (row : Row) (r : RowId) (name : String) (def : ColumnDef)
      → validate_constraints x s db schema row r ≡ ok tt
      → Memᴰ (name, def) schema.columns
      → def.not_null ≡ true
      → (v : Value) × (lookup name row ≡ some v × is_null v ≡ false)
  validate_constraints-not_null schema row r name def h m k =
      let n =
        check_not_null-ok row schema.columns name def
          (validate_constraints-ok schema row r h).not_null m k in
      elim (Option-cases (lookup name row)) [
        | inl e ↦ absurd (ground arith)
        | inr (v, e) ↦ (v, (e, ground arith))
      ]

  -- A row that the constraints let through differs from every other row of its table in the value
  -- of each UNIQUE or PRIMARY KEY column where it is not NULL, if the schema has the name of that
  -- table and no index is on the column alone.
  pub validate_constraints-unique :
      (schema : TableSchema) (row : Row) (r : RowId) (name : String) (def : ColumnDef) (v : Value)
      (store : Store) (r' : RowId) (row' : Row)
      → validate_constraints x s db schema row r ≡ ok tt
      → Memᴰ (name, def) schema.columns
      → (def.unique || def.primary_key) ≡ true
      → lookup name row ≡ some v
      → is_null v ≡ false
      → get_table_store db schema.name s ≡ some store
      → find (single_column name) schema.indices ≡ none
      → Memᴰ (r', row') store
      → r' ≢ r
      → has_value x s db name v row' ≡ false
  unfolding value_exists_elsewhere
  validate_constraints-unique schema row r name def v store r' row' h m k l i t f m' n =
      let e =
        check_unique-ok schema row r schema.columns name def v
          (validate_constraints-ok schema row r h).unique m k l i in
      let g = exists_in-row (name ∷ []) (v ∷ []) r store r' row' (ground arith) m' n in ground arith
