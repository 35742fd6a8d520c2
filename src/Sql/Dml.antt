-- ===== src/Sql/Dml.antt =====
-- src/sql/dml.rs: INSERT, UPDATE and DELETE. `execute` runs the statements of triggers, `select`
-- the query of an INSERT ... SELECT.
pub mod Quiet
pub mod Untriggered
pub mod Inserting
pub mod Pending
pub mod Changing
use skvs.Prelude.{
  ℕ, ◌+◌, String, true, false, ◌&&◌, Option, none, some, List, [], ◌∷◌, unwrap_or, nat_eq,
  string_eq, if◌then◌else◌,
}
use skvs.Prelude.Int.{pos, wrap_i64}
use skvs.Prelude.Map.{Map, keys, values, insert, contains_key}
use skvs.Error.{SkvsError, Result, ok, err, ok_or}
use skvs.Value.{Value, Row, RowId}
use skvs.Schema.{ColumnDef, DataType, TableSchema, TriggerEvent, TriggerTiming}
use skvs.State.{KvsState, Store, get_table_store, get_schema, get_next_rowid}
use skvs.Constraint.{validate_constraints}
use skvs.Trigger.{fire_triggers}
use skvs.Expr.Ast.{Expr}
use skvs.Expr.Eval.{count_placeholders, eval, last_part}
use skvs.Sql.Ast.{Statement, Query, SetExpr, TableFactor, Assignment}
use skvs.Sql.Env.{Env, QueryResult, Exec}
use skvs.Sql.Exec.{pure, lift, asks, modify, ◌>>=◌, ◌>>◌, for_each}
use skvs.Sql.Where.{matches}
use skvs.Sql.Write.{write_insert, write_update, write_delete}

-- src/sql/mod.rs: the constructors of a result.
abbrev pub empty_result : QueryResult
empty_result = record { columns = []; rows = []; affected_rows = none; tx_id = none }

abbrev pub affected : ℕ → QueryResult
affected n = record { columns = []; rows = []; affected_rows = some n; tx_id = none }

abbrev pub began : ℕ → QueryResult
began id = record { columns = []; rows = []; affected_rows = none; tx_id = some id }

abbrev pub rows_result : List Row → List String → QueryResult
rows_result rows columns = record {
  columns = columns;
  rows = rows;
  affected_rows = none;
  tx_id = none;
}

abbrev count_rows {ℓ} : {A : Type ℓ} → List A → ℕ
count_rows [] = 0
count_rows (a ∷ as') = count_rows as' + 1

-- A relation by the name of its table, or by its text.
abbrev pub relation_name : TableFactor → String
relation_name (TableFactor.table name _) = name
relation_name (TableFactor.other text) = text

module _ (x : Env) (params : List Value) where
  -- One row of VALUES: every row counts its parameters from 0, and a short row leaves the last
  -- columns out.
  unfoldable pub values_row : List String → List Expr → ℕ → Row → Row
  values_row (c ∷ cs) (e ∷ es) i row =
      let (v, j) = eval x.externs none params e i in values_row cs es j (insert c v row)
  values_row _ _ i row = row

  abbrev value_rows : List String → List (List Expr) → List Row
  value_rows cols [] = []
  value_rows cols (es ∷ rest) = values_row cols es 0 [] ∷ value_rows cols rest

  -- The assignments of an UPDATE read the old row.
  unfoldable pub assign : Row → List Assignment → ℕ → Row → Row
  assign old [] i new = new
  assign old (a ∷ rest) i new =
      let (v, j) = eval x.externs (some old) params a.value i in
      assign old rest j (insert (unwrap_or (last_part a.id) "") v new)

abbrev select_row : List String → List Value → Row → Row
select_row (c ∷ cs) (v ∷ vs) row = select_row cs vs (insert c v row)
select_row _ _ row = row

-- Defaults for what was not supplied; an INTEGER PRIMARY KEY is the row id.
abbrev default_value : ColumnDef → RowId → Value
default_value def r =
    if def.primary_key && elim def.data_type [ DataType.integer ↦ true | _ ↦ false ]
    then Value.integer (wrap_i64 (pos r))
    else unwrap_or def.default Value.null

unfoldable pub fill_defaults : RowId → Map String ColumnDef → Row → Row
fill_defaults r [] row = row
fill_defaults r ((name, def) ∷ rest) row =
    fill_defaults r rest
      (if contains_key name row then row else insert name (default_value def r) row)

abbrev pub set_placeholders : List Assignment → ℕ
set_placeholders [] = 0
set_placeholders (a ∷ rest) = count_placeholders a.value + set_placeholders rest

abbrev pub or_one_row : List Row → List Row
or_one_row [] = [] ∷ []
or_one_row (r ∷ rs) = r ∷ rs

module _ (x : Env) (db : ℕ) (params : List Value) (tx : Option ℕ) where
  -- The rows of a table that a WHERE clause selects, read before any of them is written.
  unfoldable pub selected : Option Expr → ℕ → KvsState → Store → List (RowId × Row)
  selected selection i s [] = []
  selected selection i s ((r, row) ∷ rest) =
      let others = selected selection i s rest in
      if matches x.externs s db row params selection i then (r, row) ∷ others else others

  module _ (execute : ℕ → Statement → Option ℕ → Exec QueryResult)
      (select : Query → KvsState → Result QueryResult) where
    abbrev fire : String → TriggerEvent → TriggerTiming → Option Row → Option Row → Exec (Unit {0})
    fire = fire_triggers x db tx execute

    unfoldable pub next_rowid : String → Exec ℕ
    next_rowid table s = let (n, s') = get_next_rowid db table s in (ok n, s')

    unfoldable pub insert_row : String → TableSchema → Row → Exec (Unit {0})
    unfolding next_rowid
    insert_row table schema supplied = do
      r ← next_rowid table
      let row = fill_defaults r schema.columns supplied
      asks (λ s. validate_constraints x s db schema row r)
      fire table TriggerEvent.insert TriggerTiming.before none (some row)
      modify (write_insert x.externs db tx table r row)
      fire table TriggerEvent.insert TriggerTiming.after none (some row)

    unfoldable pub update_row :
        String → TableSchema → List Assignment → RowId × Row → Exec (Unit {0})
    update_row table schema assignments (r, old) = do
      let new = assign x params old assignments 0 old
      asks (λ s. validate_constraints x s db schema new r)
      fire table TriggerEvent.update TriggerTiming.before (some old) (some new)
      modify (write_update x.externs db tx table r old new)
      fire table TriggerEvent.update TriggerTiming.after (some old) (some new)

    unfoldable pub delete_row : String → RowId × Row → Exec (Unit {0})
    delete_row table (r, row) = do
      fire table TriggerEvent.delete TriggerTiming.before (some row) none
      modify (write_delete x.externs db tx table r row)
      fire table TriggerEvent.delete TriggerTiming.after (some row) none

    abbrev select_rows : List String → List Row → List Row
    select_rows cols [] = []
    select_rows cols (r ∷ rs) = select_row cols (values r) [] ∷ select_rows cols rs

    abbrev pub candidates : List String → Option Query → KvsState → Result (List Row)
    candidates cols none s = ok []
    candidates cols (some q) s = elim q.body [
      | SetExpr.values rows ↦ ok (value_rows x params cols rows)
      | SetExpr.select _ ↦ elim (select q s) [ err e ↦ err e | ok r ↦ ok (select_rows cols r.rows) ]
      | SetExpr.other ↦ err SkvsError.unsupported
    ]

    abbrev pub column_names : TableSchema → List String → List String
    column_names schema [] = keys schema.columns
    column_names schema (c ∷ cs) = c ∷ cs

    unfoldable pub execute_insert : String → List String → Option Query → Exec QueryResult
    execute_insert table columns source = do
      schema ← asks (λ s. ok_or (get_schema db table s) SkvsError.schema)
      _ ← asks (λ s. ok_or (get_table_store db table s) SkvsError.schema)
      supplied ← asks (candidates (column_names schema columns) source)
      for_each (insert_row table schema) (or_one_row supplied)
      pure (affected (count_rows (or_one_row supplied)))

    unfoldable pub execute_update : TableFactor → List Assignment → Option Expr → Exec QueryResult
    execute_update relation assignments selection = do
      let table = relation_name relation
      store ← asks (λ s. ok_or (get_table_store db table s) SkvsError.schema)
      schema ← asks (λ s. ok_or (get_schema db table s) SkvsError.schema)
      rows ← asks (λ s. ok (selected selection (set_placeholders assignments) s store))
      for_each (update_row table schema assignments) rows
      pure (affected (count_rows rows))

    abbrev pub delete_target : List String → List TableFactor → Result String
    delete_target (t ∷ ts) from = ok t
    delete_target [] (f ∷ fs) = ok (relation_name f)
    delete_target [] [] = err SkvsError.unsupported

    unfoldable pub execute_delete : List String → List TableFactor → Option Expr → Exec QueryResult
    execute_delete tables from selection = do
      table ← lift (delete_target tables from)
      store ← asks (λ s. ok_or (get_table_store db table s) SkvsError.schema)
      rows ← asks (λ s. ok (selected selection 0 s store))
      for_each (delete_row table) rows
      pure (affected (count_rows rows))
