-- ===== src/Sql/Ddl/Alter.antt =====
-- src/sql/ddl.rs: ALTER TABLE. Its operations are applied in order, each to what the ones before
-- left, and an error leaves those applied.
pub mod Renamed
use skvs.Prelude.{
  ℕ, zero, suc, ◌&&◌, String, Bool, true, false, not, Option, none, some, List, [], ◌∷◌, unwrap_or,
  length, is_some, min, ltb, ◌==◌, nat_eq, string_eq, if◌then◌else◌,
}
use skvs.Prelude.Map.{Map, lookup, insert, remove, contains_key}
use skvs.Prelude.Nested.{get_in, put_in, del_in}
use skvs.Error.{SkvsError, Result, ok, err, ok_or}
use skvs.Value
use skvs.Value.{Value, Row, RowId}
use skvs.Schema.{ColumnDef, TableSchema}
use skvs.State.{KvsState, Store}
use skvs.Sql.Ast.{AlterTableOperation}
use skvs.Sql.Env.{Env, QueryResult, Exec}
use skvs.Sql.Exec.{pure, raise, asks, modify, ◌>>=◌, ◌>>◌}
use skvs.Sql.Dml.{empty_result}
use skvs.Sql.Ddl.Table.{parse_column_def}

-- `for mut entry in store.iter_mut()`
abbrev map_rows : (Row → Row) → Store → Store
map_rows f [] = []
map_rows f ((r, row) ∷ rest) = (r, f row) ∷ map_rows f rest

abbrev alter_rows : ℕ → String → (Row → Row) → KvsState → KvsState
alter_rows db table f s = elim (get_in db table s.dbs) [
  | none ↦ s
  | some store ↦ record s { dbs = put_in db table (map_rows f store) s.dbs }
]

abbrev put_schema : ℕ → String → TableSchema → KvsState → KvsState
put_schema db table schema s = record s { schemas = put_in db table schema s.schemas }

-- The schema is there when an operation starts; `unwrap` on a missing one would panic.
abbrev current : ℕ → String → KvsState → Result TableSchema
current db table s = ok_or (get_in db table s.schemas) SkvsError.crash

unfoldable pub add_column : ℕ → String → ColumnDef → Exec String
add_column db table def = do
  schema ← asks (current db table)
  if contains_key def.name schema.columns then raise SkvsError.schema else do
    modify (alter_rows db table (insert def.name (unwrap_or def.default Value.null)))
    modify (put_schema db table (record schema { columns = insert def.name def schema.columns }))
    pure table

abbrev is_column : Option String → String → Bool
is_column none col = false
is_column (some c) col = c == col

unfoldable pub drop_column : ℕ → String → String → Bool → Exec String
drop_column db table col if_exists = do
  schema ← asks (current db table)
  if not (contains_key col schema.columns) && not if_exists then raise SkvsError.schema else do
    modify (alter_rows db table (remove col))
    modify (
        put_schema db table (record schema {
          columns = remove col schema.columns;
          rowid_column = if is_column schema.rowid_column col then none else schema.rowid_column;
        }))
    pure table

-- `get_index_of`, and `shift_insert` of a key that is not there.
abbrev index_of : String → Map String ColumnDef → ℕ
index_of k [] = 0
index_of k ((j, d) ∷ m) = if j == k then 0 else suc (index_of k m)

abbrev insert_at : ℕ → String → ColumnDef → Map String ColumnDef → Map String ColumnDef
insert_at zero k d m = (k, d) ∷ m
insert_at (suc n) k d [] = (k, d) ∷ []
insert_at (suc n) k d ((j, e) ∷ m) = (j, e) ∷ insert_at n k d m

-- Renaming to a column that exists replaces that one, at the place of the renamed; `shift_insert`
-- panics if that place is past the end.
unfoldable pub shift_insert :
    ℕ → String → ColumnDef → Map String ColumnDef → Result (Map String ColumnDef)
shift_insert i k d m =
    if contains_key k m
    then (if ltb i (length m) then ok (insert_at i k d (remove k m)) else err SkvsError.crash)
    else ok (insert_at i k d m)

abbrev rename_in : String → String → Row → Row
rename_in old new row = elim (lookup old row) [
  | none ↦ row
  | some v ↦ insert new v (remove old row)
]

unfoldable pub rename_column : ℕ → String → String → String → Exec String
rename_column db table old new = do
  schema ← asks (current db table)
  def ← asks (λ _. ok_or (lookup old schema.columns) SkvsError.schema)
  let rest = remove old schema.columns
  columns ← asks (λ _.
      shift_insert (min (index_of old schema.columns) (length rest)) new (record def { name = new })
        rest)
  modify (alter_rows db table (rename_in old new))
  modify (
      put_schema db table (record schema {
        columns = columns;
        rowid_column = if is_column schema.rowid_column old then some new else schema.rowid_column;
      }))
  pure table

-- `if let Some((_, v)) = m.remove(old) { m.insert(new, v) }`
abbrev pub move_key {ℓ} :
    {V : Type ℓ} → ℕ → String → String → Map ℕ (Map String V) → Map ℕ (Map String V)
move_key db old new m = elim (get_in db old m) [
  | none ↦ m
  | some v ↦ put_in db new v (del_in db old m)
]

-- The schema keeps its old `name`; indexes, triggers and the full-text index are not moved.
unfoldable pub rename_table : ℕ → String → String → Exec String
rename_table db old new s = (
  ok new,
  record s {
    schemas = move_key db old new s.schemas;
    dbs = move_key db old new s.dbs;
    rowid_generators = move_key db old new s.rowid_generators;
  },
)

unfoldable pub alter_operation : Env → ℕ → String → AlterTableOperation → Exec String
alter_operation x db table (AlterTableOperation.add_column c) =
    add_column db table (parse_column_def x c)
alter_operation x db table (AlterTableOperation.drop_column c if_exists) =
    drop_column db table c if_exists
alter_operation x db table (AlterTableOperation.rename_column old new) =
    rename_column db table old new
alter_operation x db table (AlterTableOperation.rename_table new) = rename_table db table new
alter_operation x db table AlterTableOperation.other = raise SkvsError.unsupported

unfoldable pub alter_operations : Env → ℕ → String → List AlterTableOperation → Exec QueryResult
alter_operations x db table [] = pure empty_result
alter_operations x db table (op ∷ ops) = do
  table' ← alter_operation x db table op
  alter_operations x db table' ops

unfoldable pub alter_table : Env → ℕ → String → Bool → List AlterTableOperation → Exec QueryResult
alter_table x db table if_exists operations s =
    if is_some (get_in db table s.schemas)
    then alter_operations x db table operations s
    else if is_some (lookup db s.schemas) && if_exists
    then (ok empty_result, s)
    else (err SkvsError.schema, s)
