-- ===== src/Sql/Engine/Atomic.antt =====
-- src/sql/mod.rs: a statement that fails outside a transaction leaves the tables as they were.
use skvs.Prelude.{
  ℕ, zero, suc, String, ◌≡◌, inl, inr, Option, some, List, [], ◌∷◌, arith, nat_eq, string_eq,
}
use skvs.Error.{SkvsError, err}
use skvs.Value.{Value}
use skvs.State.{KvsState, get_triggers, get_table_store}
use skvs.State.Rows.{SameRows}
use skvs.Transaction.{begin, rollback}
use skvs.Sql.Ast.{Statement, Query, TableFactor, Assignment}
use skvs.Expr.Ast.{Expr}
use skvs.Sql.Env.{Env}
use skvs.Sql.Select.{execute_select}
use skvs.Sql.Write.Restore.{Writes, start, rollback-begin}
use skvs.Sql.Dml.Quiet.{Result-cases}
use skvs.Sql.Dml.Inserting.{BelowCounter, Inserting, execute_insert-Inserting}
use skvs.Sql.Dml.Changing.{DistinctRows, Changing, execute_update-Changing, execute_delete-Changing}
use skvs.Sql.Engine.{execute_single_statement, execute_atomically}

module _ (x : Env) (db : ℕ) where
  begin-Inserting :
      (t : String) (s : KvsState)
      → get_triggers db t s ≡ []
      → BelowCounter db t s
      → Inserting x db t (begin x.externs db s).0 (begin x.externs db s).1 (begin x.externs db s).1
  unfolding begin get_triggers
  begin-Inserting t s h k = record { writes = start; quiet = h; below = k }

  execute_single_statement-Inserting :
      (fuel : ℕ) (t : String) (columns : List String) (source : Option Query) (params : List Value)
      (id : ℕ) (s₀ s : KvsState)
      → Inserting x db t id s₀ s
      → Inserting x db t id s₀
          (execute_single_statement x fuel db
            (Statement.insert t columns source)
            params
            (some id)
            s).1
  unfolding execute_single_statement
  execute_single_statement-Inserting zero t columns source params id s₀ s h = h
  execute_single_statement-Inserting (suc fuel) t columns source params id s₀ s h =
      execute_insert-Inserting x db t id s₀ params
        (λ db' st tx. execute_single_statement x fuel db' st [] tx)
        (execute_select x db params fuel) columns source s h

  begin-Changing :
      (t : String) (s : KvsState)
      → get_triggers db t s ≡ []
      → Changing x db t (begin x.externs db s).0 (begin x.externs db s).1 (begin x.externs db s).1
  unfolding begin get_triggers
  begin-Changing t s h = record { writes = start; quiet = h }

  begin-DistinctRows :
      (t : String) (s : KvsState) → DistinctRows db t s → DistinctRows db t (begin x.externs db s).1
  unfolding begin get_table_store
  begin-DistinctRows t s d = d

  update-Changing :
      (fuel : ℕ) (t : String) (alias : Option String) (assignments : List Assignment)
      (where' : Option Expr) (params : List Value) (id : ℕ) (s₀ s : KvsState)
      → DistinctRows db t s
      → Changing x db t id s₀ s
      → Changing x db t id s₀
          (execute_single_statement x fuel db
            (Statement.update (TableFactor.table t alias) assignments where')
            params
            (some id)
            s).1
  unfolding execute_single_statement
  update-Changing zero t alias assignments where' params id s₀ s d h = h
  update-Changing (suc fuel) t alias assignments where' params id s₀ s d h =
      execute_update-Changing x db t id s₀ params
        (λ db' st tx. execute_single_statement x fuel db' st [] tx)
        (execute_select x db params fuel) alias assignments where' s d h

  delete-Changing :
      (fuel : ℕ) (t : String) (alias : Option String) (from : List TableFactor)
      (where' : Option Expr) (params : List Value) (id : ℕ) (s₀ s : KvsState)
      → DistinctRows db t s
      → Changing x db t id s₀ s
      → Changing x db t id s₀
          (execute_single_statement x fuel db
            (Statement.delete [] (TableFactor.table t alias ∷ from) where')
            params
            (some id)
            s).1
  unfolding execute_single_statement
  delete-Changing zero t alias from where' params id s₀ s d h = h
  delete-Changing (suc fuel) t alias from where' params id s₀ s d h =
      execute_delete-Changing x db t id s₀ params
        (λ db' st tx. execute_single_statement x fuel db' st [] tx)
        (execute_select x db params fuel) alias from where' s d h

  -- The statement's writes are rolled back when it fails.
  atomically-err :
      (fuel : ℕ) (stmt : Statement) (params : List Value) (s : KvsState)
      → let id = (begin x.externs db s).0 in
        let s' = (begin x.externs db s).1 in
        Writes x.externs db id s' (execute_single_statement x fuel db stmt params (some id) s').1
        → (e : SkvsError) → (execute_atomically x fuel db stmt params s).0 ≡ err e
        → SameRows (execute_atomically x fuel db stmt params s).1.dbs s.dbs
  unfolding execute_atomically
  atomically-err fuel stmt params s w e h =
      let id = (begin x.externs db s).0 in
      let s' = (begin x.externs db s).1 in
      let out = execute_single_statement x fuel db stmt params (some id) s' in
      elim (Result-cases out.0) [
        | inl (r, k) ↦ absurd (ground (arith, h, k))
        | inr (er, k) ↦ rw (k, execute_atomically) (rollback-begin x.externs db s out.1 w).1
      ]

  -- An INSERT outside a transaction that fails, at whichever of its rows, leaves in every table
  -- the rows from before it, if its table has no triggers and every row id of that table is below
  -- the table's counter.
  pub execute_atomically-insert :
      (fuel : ℕ) (t : String) (columns : List String) (source : Option Query) (params : List Value)
      (s : KvsState) (e : SkvsError)
      → get_triggers db t s ≡ []
      → BelowCounter db t s
      → (execute_atomically x fuel db (Statement.insert t columns source) params s).0 ≡ err e
      → SameRows
          (execute_atomically x fuel db (Statement.insert t columns source) params s).1.dbs
          s.dbs
  execute_atomically-insert fuel t columns source params s e q b h =
      let k =
        execute_single_statement-Inserting fuel t columns source params _ _ _
          (begin-Inserting t s q b) in
      atomically-err fuel (Statement.insert t columns source) params s k.writes e h

  -- An UPDATE of one table outside a transaction that fails, at whichever of its rows, leaves in
  -- every table the rows from before it, if its table has no triggers and no row id twice.
  pub execute_atomically-update :
      (fuel : ℕ) (t : String) (alias : Option String) (assignments : List Assignment)
      (where' : Option Expr) (params : List Value) (s : KvsState) (e : SkvsError)
      → get_triggers db t s ≡ []
      → DistinctRows db t s
      → let stmt = Statement.update (TableFactor.table t alias) assignments where' in
        (execute_atomically x fuel db stmt params s).0 ≡ err e
        → SameRows (execute_atomically x fuel db stmt params s).1.dbs s.dbs
  execute_atomically-update fuel t alias assignments where' params s e q d h =
      let k =
        update-Changing fuel t alias assignments where' params _ _ _ (begin-DistinctRows t s d)
          (begin-Changing t s q) in
      atomically-err fuel _ params s k.writes e h

  -- A DELETE on one table in a transaction that was begun on the database of the table and is then
  -- rolled back leaves in every table the rows from before the transaction, whether it succeeded
  -- or not, if the table has no triggers and no row id twice.
  pub rollback-delete :
      (fuel : ℕ) (t : String) (alias : Option String) (from : List TableFactor)
      (where' : Option Expr) (params : List Value) (s : KvsState)
      → get_triggers db t s ≡ []
      → DistinctRows db t s
      → let id = (begin x.externs db s).0 in
        let stmt = Statement.delete [] (TableFactor.table t alias ∷ from) where' in
        let s' =
          (execute_single_statement x fuel db stmt params (some id) (begin x.externs db s).1).1 in
        SameRows (rollback x.externs id s').1.dbs s.dbs
  rollback-delete fuel t alias from where' params s q d =
      let k =
        delete-Changing fuel t alias from where' params _ _ _ (begin-DistinctRows t s d)
          (begin-Changing t s q) in
      (rollback-begin x.externs db s _ k.writes).1
