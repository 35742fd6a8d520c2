-- ===== src/Sql/Ddl/Object.antt =====
-- src/sql/ddl.rs: CREATE INDEX, DROP INDEX, CREATE VIEW and DROP VIEW.
use Prim.Native.String.{◌++◌ as append}
use skvs.Prelude.{
  ℕ, String, Bool, true, false, not, Option, none, some, List, [], ◌∷◌, ◌++◌, any, keep, map,
  length, unwrap_or, ◌==◌, nat_eq, string_eq, if◌then◌else◌,
}
use skvs.Prelude.Int.{pos}
use skvs.Prelude.Map.{Map, lookup}
use skvs.Prelude.Nested.{get_in, put_in}
use skvs.Error.{SkvsError, ok, err}
use skvs.Text.{i64_to_string}
use skvs.Schema.{TableSchema, IndexDef}
use skvs.State.{KvsState, drop_index_store}
use skvs.Index.{rebuild_index}
use skvs.View
use skvs.Sql.Ast.{CreateIndex, Query}
use skvs.Sql.Env.{Env, QueryResult, Exec}
use skvs.Sql.Exec.{pure, ◌>>=◌}
use skvs.Sql.Dml.{empty_result}

abbrev named : String → IndexDef → Bool
named n i = i.name == n

unfoldable pub index_def_of : Env → CreateIndex → IndexDef
index_def_of x c = record {
  name =
      unwrap_or c.name
        (append "idx_" (append c.table_name (append "_" (i64_to_string (pos (length c.columns))))));
  columns = map x.expr_to_string c.columns;
  unique = c.unique;
  partial_where = none;
  is_expression = false;
}

abbrev add_index : Env → ℕ → String → TableSchema → IndexDef → KvsState → KvsState
add_index x db table schema idx s = rebuild_index x.externs db table idx (record s {
  schemas = put_in db table (record schema { indices = schema.indices ++ (idx ∷ []) }) s.schemas;
})

unfoldable pub create_index : Env → ℕ → CreateIndex → Exec QueryResult
create_index x db c s = elim (get_in db c.table_name s.schemas) [
  | none ↦ (err SkvsError.schema, s)
  | some schema ↦
      let idx = index_def_of x c in
      if any (named idx.name) schema.indices
      then (if c.if_not_exists then (ok empty_result, s) else (err SkvsError.schema, s))
      else (ok empty_result, add_index x db c.table_name schema idx s)
]

-- The first table of the database with an index of that name.
abbrev owner : String → Map String TableSchema → Option (String × TableSchema)
owner n [] = none
owner n ((table, schema) ∷ rest) =
    let others = owner n rest in
    if any (named n) schema.indices then some (table, schema) else others

abbrev tables_of : ℕ → KvsState → Map String TableSchema
tables_of db s = unwrap_or (lookup db s.schemas) []

abbrev remove_index : ℕ → String → String → TableSchema → KvsState → KvsState
remove_index db n table schema s = drop_index_store db table n (record s {
  schemas =
      put_in db table (record schema { indices = keep (λ i. not (named n i)) schema.indices })
        s.schemas;
})

unfoldable pub drop_indexes : ℕ → List String → Bool → Exec QueryResult
drop_indexes db [] if_exists s = (ok empty_result, s)
drop_indexes db (n ∷ rest) if_exists s = elim (owner n (tables_of db s)) [
  | some (table, schema) ↦ drop_indexes db rest if_exists (remove_index db n table schema s)
  | none ↦ elim if_exists [ true ↦ drop_indexes db rest true s | false ↦ (err SkvsError.schema, s) ]
]

unfoldable pub drop_index : ℕ → List String → Bool → Exec QueryResult
drop_index db names if_exists s = elim (lookup db s.schemas) [
  | none ↦ (err SkvsError.schema, s)
  | some _ ↦ drop_indexes db names if_exists s
]

unfoldable pub create_view : Env → ℕ → String → Query → Exec QueryResult
create_view x db name query =
    View.create_view x db name (x.query_to_string query) >>= λ _. pure empty_result

-- With IF EXISTS an error of one name is passed over.
unfoldable pub drop_view : ℕ → List String → Bool → Exec QueryResult
drop_view db [] if_exists s = (ok empty_result, s)
drop_view db (n ∷ rest) if_exists s =
    let (r, s') = View.drop_view db n s in
    elim r [
      | ok _ ↦ drop_view db rest if_exists s'
      | err e ↦ elim if_exists [ true ↦ drop_view db rest true s' | false ↦ (err e, s') ]
    ]
