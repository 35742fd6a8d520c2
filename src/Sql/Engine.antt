-- ===== src/Sql/Engine.antt =====
-- src/sql/mod.rs: the dispatch of a statement, and `SqlEngine::execute` with its transactions.
-- Triggers run statements, which fire triggers: the recursion is on fuel, and `crash` is its end.
pub mod Atomic
use text.Mathlib.Text.{starts_with}
use skvs.Prelude.{
  ℕ, zero, suc, String, Bool, true, false, Option, none, some, List, [], ◌∷◌, if◌then◌else◌,
}
use skvs.Error.{SkvsError, Result, ok, err, ok_or}
use skvs.Value.{Value}
use skvs.State.{KvsState}
use skvs.Transaction.{begin, commit, rollback}
use skvs.Sql.Ast.{Statement, ObjectType}
use skvs.Sql.Env.{Env, QueryResult, Exec}
use skvs.Sql.Exec.{raise, lift, asks, ◌>>=◌}
use skvs.Sql.Dml.{empty_result, began, execute_insert, execute_update, execute_delete}
use skvs.Sql.Select.{execute_select}
use skvs.Sql.Ddl.Table.{create_table, create_virtual_table, drop_table}
use skvs.Sql.Ddl.Alter.{alter_table}
use skvs.Sql.Ddl.Object.{create_index, drop_index, create_view, drop_view}
use skvs.Sql.Ddl.CreateTrigger.{create_trigger}

module _ (x : Env) where
  -- DROP by the kind of the object.
  abbrev drop_object : ℕ → ObjectType → List String → Bool → Exec QueryResult
  drop_object db ObjectType.table names if_exists = drop_table db names if_exists
  drop_object db ObjectType.index names if_exists = drop_index db names if_exists
  drop_object db ObjectType.view names if_exists = drop_view db names if_exists
  drop_object db ObjectType.other names if_exists = raise SkvsError.unsupported

  -- One statement, given the function that runs those of its triggers; `fuel` is for views.
  abbrev pub dispatch :
      ℕ
      → (ℕ → Statement → Option ℕ → Exec QueryResult)
      → ℕ
      → Statement
      → List Value
      → Option ℕ
      → Exec QueryResult
  dispatch fuel run db (Statement.query q) params tx = asks (execute_select x db params fuel q)
  dispatch fuel run db (Statement.insert table columns source) params tx =
      execute_insert x db params tx run (execute_select x db params fuel) table columns source
  dispatch fuel run db (Statement.update relation assignments selection) params tx =
      execute_update x db params tx run (execute_select x db params fuel) relation assignments
        selection
  dispatch fuel run db (Statement.delete tables from selection) params tx =
      execute_delete x db params tx run (execute_select x db params fuel) tables from selection
  dispatch fuel run db (Statement.create_table t) params tx = create_table x db t
  dispatch fuel run db (Statement.alter_table table if_exists operations) params tx =
      alter_table x db table if_exists operations
  dispatch fuel run db (Statement.create_index c) params tx = create_index x db c
  dispatch fuel run db (Statement.create_view name q) params tx = create_view x db name q
  dispatch fuel run db (Statement.create_virtual_table t) params tx = create_virtual_table x db t
  dispatch fuel run db (Statement.drop kind names if_exists) params tx =
      drop_object db kind names if_exists
  dispatch fuel run db _ params tx = raise SkvsError.unsupported

  unfoldable pub execute_single_statement :
      ℕ → ℕ → Statement → List Value → Option ℕ → Exec QueryResult
  execute_single_statement zero db stmt params tx = raise SkvsError.crash
  execute_single_statement (suc fuel) db stmt params tx =
      dispatch fuel (λ db' st tx'. execute_single_statement fuel db' st [] tx') db stmt params tx

  abbrev pub is_write : Statement → Bool
  is_write (Statement.insert _ _ _) = true
  is_write (Statement.update _ _ _) = true
  is_write (Statement.delete _ _ _) = true
  is_write _ = false

  abbrev pub close : ℕ → Result QueryResult → KvsState → Result QueryResult × KvsState
  close shadow (ok r) s = (ok r, (commit x.externs shadow s).1)
  close shadow (err e) s = (err e, (rollback x.externs shadow s).1)

  -- A write outside a transaction runs in one of its own, which is rolled back if it fails.
  unfoldable pub execute_atomically : ℕ → ℕ → Statement → List Value → Exec QueryResult
  execute_atomically fuel db stmt params s =
      let (shadow, s₁) = begin x.externs db s in
      let (r, s₂) = execute_single_statement fuel db stmt params (some shadow) s₁ in
      close shadow r s₂

  abbrev as_result : Result (Unit {0}) × KvsState → Result QueryResult × KvsState
  as_result (ok _, s) = (ok empty_result, s)
  as_result (err e, s) = (err e, s)

  unfoldable pub execute_commit : Option ℕ → Exec QueryResult
  execute_commit none s = (err SkvsError.transaction, s)
  execute_commit (some id) s = as_result (commit x.externs id s)

  unfoldable pub execute_rollback : Option ℕ → Exec QueryResult
  execute_rollback none s = (err SkvsError.transaction, s)
  execute_rollback (some id) s = as_result (rollback x.externs id s)

  unfoldable pub execute_begin : ℕ → Exec QueryResult
  execute_begin db s = let (id, s') = begin x.externs db s in (ok (began id), s')

  abbrev run_statement : ℕ → ℕ → Statement → List Value → Option ℕ → Exec QueryResult
  run_statement fuel db stmt params (some id) =
      execute_single_statement fuel db stmt params (some id)
  run_statement fuel db stmt params none =
      if is_write stmt
      then execute_atomically fuel db stmt params
      else execute_single_statement fuel db stmt params none

  -- One parsed statement.
  unfoldable pub execute_statement : ℕ → ℕ → Statement → List Value → Option ℕ → Exec QueryResult
  execute_statement fuel db Statement.start_transaction params tx = execute_begin db
  execute_statement fuel db Statement.commit params tx = execute_commit tx
  execute_statement fuel db Statement.rollback params tx = execute_rollback tx
  execute_statement fuel db stmt params tx = run_statement fuel db stmt params tx

  abbrev single : List Statement → Result Statement
  single (stmt ∷ []) = ok stmt
  single _ = err SkvsError.unsupported

  abbrev is_create_trigger : String → Bool
  is_create_trigger sql =
      starts_with (x.externs.to_uppercase (x.externs.trim_start sql)) "CREATE TRIGGER"

  unfoldable pub execute : ℕ → ℕ → String → List Value → Option ℕ → Exec QueryResult
  execute fuel db sql params tx = if is_create_trigger sql then create_trigger x db sql else do
    statements ← lift (ok_or (x.parse_sql sql) SkvsError.sql_parse)
    stmt ← lift (single statements)
    execute_statement fuel db stmt params tx
