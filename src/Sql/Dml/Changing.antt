-- ===== src/Sql/Dml/Changing.antt =====
-- src/sql/dml.rs: an UPDATE or a DELETE on a table without triggers finds each row as it read it.
use skvs.Prelude.{
  ℕ, String, ◌≡◌, ◌≢◌, refl, inl, inr, Option, none, some, List, [], ◌∷◌, Option-cases, nat_eq,
  string_eq, nat_beq_iff, arith,
}
use skvs.Prelude.Map.{lookup}
use skvs.Error.{Result, ok}
use skvs.Value.{Value, Row, RowId}
use skvs.Schema.{TableSchema, TriggerEvent, TriggerTiming}
use skvs.State.{KvsState, Store, get_triggers, get_schema, get_table_store}
use skvs.State.Rows.{row_at, row_in-store_insert, row_in-store_remove}
use skvs.Constraint.{validate_constraints}
use skvs.Expr.Ast.{Expr}
use skvs.Sql.Ast.{Statement, Query, TableFactor, Assignment}
use skvs.Sql.Env.{Env, QueryResult, Exec}
use skvs.Sql.Exec.{for_each}
use skvs.Sql.Write.{write_update, write_delete}
use skvs.Sql.Write.Restore.{Writes, updated, deleted}
use skvs.Sql.Dml.{
  update_row, delete_row, execute_update, execute_delete, selected, assign, set_placeholders,
}
use skvs.Sql.Dml.Quiet.{
  Result-cases, write_update-Quiet, dbs-write_update, write_delete-Quiet, dbs-write_delete,
  fire_triggers-none,
}
use skvs.Sql.Dml.Pending.{
  Distinct, Pending, next, Pending-Apart, Pending-cong, Pending-store, Pending-selected,
}

-- The rows of the table are kept under distinct ids.
abbrev pub DistinctRows : ℕ → String → KvsState → Type 0
DistinctRows db t s = (store : Store) → get_table_store db t s ≡ some store → Distinct store

module _ (x : Env) (db : ℕ) (t : String) (id : ℕ) (s₀ : KvsState) where
  -- What holds between the writes of an UPDATE or a DELETE, with the rows that are left.
  pub record Changing (s : KvsState) : Type 0 where
    pub writes : Writes x.externs db id s₀ s
    pub quiet : get_triggers db t s ≡ []

  module _ (params : List Value) (execute : ℕ → Statement → Option ℕ → Exec QueryResult)
      (select : Query → KvsState → Result QueryResult) where
    abbrev after_delete : RowId → Row → KvsState → KvsState
    after_delete r row s = write_delete x.externs db (some id) t r row s

    after_delete-Changing :
        (r : RowId) (row : Row) (s : KvsState)
        → Changing s
        → row_at db t r s ≡ some row
        → Changing (after_delete r row s)
    unfolding get_triggers
    after_delete-Changing r row s h e = record {
      writes = deleted s t r row h.writes e;
      quiet = rw (write_delete-Quiet x.externs db (some id) t r row s).triggers h.quiet;
    }

    delete_row-quiet :
        (r : RowId) (row : Row) (s : KvsState)
        → Changing s
        → row_at db t r s ≡ some row
        → delete_row x db params (some id) execute select t (r, row) s
          ≡ (ok tt, after_delete r row s)
    unfolding delete_row
    delete_row-quiet r row s h e =
        let s' = after_delete r row s in
        let before =
          fire_triggers-none x db (some id) execute t TriggerEvent.delete TriggerTiming.before
            (some row) none s h.quiet in
        let after' =
          fire_triggers-none x db (some id) execute t TriggerEvent.delete TriggerTiming.after
            (some row) none s' (after_delete-Changing r row s h e).quiet in
        rw (before, after', delete_row) refl

    row_at-after_delete :
        (r q : RowId) (row : Row) (s : KvsState)
        → r ≢ q
        → row_at db t q (after_delete r row s) ≡ row_at db t q s
    row_at-after_delete r q row s n =
        rw (dbs-write_delete x.externs db (some id) t r row s)
          (ground (arith, row_in-store_remove db t r s db t q, nat_beq_iff r q))

    delete_rows-Changing :
        (rows : List (RowId × Row)) (s : KvsState)
        → Changing s
        → Pending (λ q. row_at db t q s) rows
        → Changing (for_each (delete_row x db params (some id) execute select t) rows s).1
    unfolding for_each
    delete_rows-Changing [] s h p = h
    delete_rows-Changing ((r, row) ∷ rest) s h (next e a p) =
        rw (delete_row-quiet r row s h e, for_each)
          (delete_rows-Changing rest (after_delete r row s) (after_delete-Changing r row s h e)
            (Pending-Apart r _ _ rest (λ q n. row_at-after_delete r q row s n) a p))

    abbrev after_update : RowId → Row → Row → KvsState → KvsState
    after_update r old new s = write_update x.externs db (some id) t r old new s

    after_update-Changing :
        (r : RowId) (old new : Row) (s : KvsState)
        → Changing s
        → row_at db t r s ≡ some old
        → Changing (after_update r old new s)
    unfolding get_triggers
    after_update-Changing r old new s h e = record {
      writes = updated s t r old new h.writes e;
      quiet = rw (write_update-Quiet x.externs db (some id) t r old new s).triggers h.quiet;
    }

    row_at-after_update :
        (r q : RowId) (old new : Row) (s : KvsState)
        → r ≢ q
        → row_at db t q (after_update r old new s) ≡ row_at db t q s
    row_at-after_update r q old new s n =
        rw (dbs-write_update x.externs db (some id) t r old new s)
          (ground (arith, row_in-store_insert db t r s new db t q, nat_beq_iff r q))

    update_rows-Changing :
        (schema : TableSchema) (assignments : List Assignment) (rows : List (RowId × Row))
        (s : KvsState)
        → Changing s
        → Pending (λ q. row_at db t q s) rows
        → Changing
            (for_each
              (update_row x db params (some id) execute select t schema assignments)
              rows
              s).1
    unfolding for_each update_row
    update_rows-Changing schema assignments [] s h p = h
    update_rows-Changing schema assignments ((r, old) ∷ rest) s h (next e a p) =
        let new = assign x params old assignments 0 old in
        let s' = after_update r old new s in
        let k = after_update-Changing r old new s h e in
        let before =
          fire_triggers-none x db (some id) execute t TriggerEvent.update TriggerTiming.before
            (some old) (some new) s h.quiet in
        let after' =
          fire_triggers-none x db (some id) execute t TriggerEvent.update TriggerTiming.after
            (some old) (some new) s' k.quiet in
        elim (Result-cases (validate_constraints x s db schema new r)) [
          | inr (er, v) ↦ rw (v, for_each, update_row) h
          | inl (u, v) ↦
              rw (v, before, after', for_each, update_row)
                (update_rows-Changing schema assignments rest s' k
                  (Pending-Apart r _ _ rest (λ q n. row_at-after_update r q old new s n) a p))
        ]

    Pending-table :
        (store : Store) (where' : Option Expr) (i : ℕ) (s : KvsState)
        → get_table_store db t s ≡ some store
        → Distinct store
        → Pending (λ q. row_at db t q s) (selected x db params (some id) where' i s store)
    unfolding get_table_store
    Pending-table store where' i s e d =
        Pending-selected x db params (some id) (λ q. row_at db t q s) where' i s store
          (Pending-cong (λ q. lookup q store) _ store (λ q. ground (arith, e))
            (Pending-store store d))

    pub execute_update-Changing :
        (alias : Option String) (assignments : List Assignment) (where' : Option Expr)
        (s : KvsState)
        → DistinctRows db t s
        → Changing s
        → Changing
            (execute_update x db params
              (some id)
              execute
              select
              (TableFactor.table t alias)
              assignments
              where'
              s).1
    unfolding execute_update
    execute_update-Changing alias assignments where' s d h =
        elim (Option-cases (get_table_store db t s)) [
          | inl e ↦ rw (e, execute_update) h
          | inr (store, e) ↦ elim (Option-cases (get_schema db t s)) [
            | inl e' ↦ rw (e, e', execute_update) h
            | inr (schema, e') ↦
                let rows =
                  selected x db params (some id) where' (set_placeholders assignments) s store in
                let f =
                  for_each (update_row x db params (some id) execute select t schema assignments)
                    rows in
                let k =
                  update_rows-Changing schema assignments rows s h
                    (Pending-table store where' (set_placeholders assignments) s e (d store e)) in
                elim (Result-cases (f s).0) [
                  | inl (u, e'') ↦ rw (e, e', e'', execute_update) k
                  | inr (er, e'') ↦ rw (e, e', e'', execute_update) k
                ]
          ]
        ]

    pub execute_delete-Changing :
        (alias : Option String) (from : List TableFactor) (where' : Option Expr) (s : KvsState)
        → DistinctRows db t s
        → Changing s
        → Changing
            (execute_delete x db params
              (some id)
              execute
              select
              []
              (TableFactor.table t alias ∷ from)
              where'
              s).1
    unfolding execute_delete
    execute_delete-Changing alias from where' s d h = elim (Option-cases (get_table_store db t s)) [
      | inl e ↦ rw (e, execute_delete) h
      | inr (store, e) ↦
          let rows = selected x db params (some id) where' 0 s store in
          let f = for_each (delete_row x db params (some id) execute select t) rows in
          let k = delete_rows-Changing rows s h (Pending-table store where' 0 s e (d store e)) in
          elim (Result-cases (f s).0) [
            | inl (u, e'') ↦ rw (e, e'', execute_delete) k
            | inr (er, e'') ↦ rw (e, e'', execute_delete) k
          ]
    ]
