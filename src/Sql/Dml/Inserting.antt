-- ===== src/Sql/Dml/Inserting.antt =====
-- src/sql/dml.rs: an INSERT into a table without triggers writes under row ids that are free.
use package.text.Mathlib.TextEquality.{eq_iff}
use skvs.Prelude.{
  ℕ, ◌+◌, ◌<◌, String, ◌≡◌, refl, subst, inl, inr, Option, none, some, List, [], ◌∷◌, unwrap_or,
  Option-cases, nat_eq, string_eq, nat_beq_iff, arith,
}
use skvs.Prelude.Nested.{get_in, put_in, get_in-put_in}
use skvs.Error.{Result}
use skvs.Value.{Value, Row, RowId}
use skvs.Schema.{TableSchema, TriggerEvent, TriggerTiming}
use skvs.State.{KvsState, get_next_rowid, get_triggers, get_schema, get_table_store}
use skvs.State.Rows.{row_at, row_in, row_in-store_insert}
use skvs.Constraint.{validate_constraints}
use skvs.Sql.Ast.{Statement, Query}
use skvs.Sql.Env.{Env, QueryResult, Exec}
use skvs.Sql.Exec.{for_each}
use skvs.Sql.Write.{write_insert}
use skvs.Sql.Write.Restore.{Writes, inserted, aside}
use skvs.Sql.Dml.{
  insert_row, execute_insert, candidates, column_names, or_one_row, fill_defaults, next_rowid,
}
use skvs.Sql.Dml.Quiet.{Result-cases, write_insert-Quiet, dbs-write_insert, fire_triggers-none}

-- The counter of row ids of a table.
abbrev pub counter : ℕ → String → KvsState → ℕ
counter db t s = unwrap_or (get_in db t s.rowid_generators) 1

-- Every row id of the table is below its counter.
abbrev pub BelowCounter : ℕ → String → KvsState → Type 0
BelowCounter db t s = (r : RowId) (row : Row) → row_at db t r s ≡ some row → r < counter db t s

module _ (x : Env) (db : ℕ) (t : String) (id : ℕ) (s₀ : KvsState) where
  -- What holds between the writes of an INSERT.
  pub record Inserting (s : KvsState) : Type 0 where
    pub writes : Writes x.externs db id s₀ s
    pub quiet : get_triggers db t s ≡ []
    pub below : BelowCounter db t s

  -- After the counter is taken the row id it gives is below it and free.
  record Taken (n : RowId) (s : KvsState) : Type 0 where
    inserting : Inserting s
    free : row_at db t n s ≡ none
    passed : n < counter db t s

  get_next_rowid-Taken :
      (s : KvsState) → Inserting s → Taken (get_next_rowid db t s).0 (get_next_rowid db t s).1
  unfolding get_next_rowid get_triggers
  get_next_rowid-Taken s h =
      let n = counter db t s in
      let k : get_in db t (put_in db t (n + 1) s.rowid_generators) ≡ some (n + 1) = ground (
        arith,
        get_in-put_in db db t t (n + 1) s.rowid_generators,
        nat_beq_iff db db,
        eq_iff t t,
      ) in
      record {
        inserting = record {
          writes = aside s _ h.writes refl refl;
          quiet = h.quiet;
          below = λ r row e. ground (arith, k, h.below r row e);
        };
        free = elim (Option-cases (row_at db t n s)) [
          | inl e ↦ e
          | inr (row, e) ↦ absurd (ground (arith, h.below n row e))
        ];
        passed = ground (arith, k);
      }

  write_insert-Inserting :
      (n : RowId) (row : Row) (s : KvsState)
      → Taken n s
      → Inserting (write_insert x.externs db (some id) t n row s)
  unfolding get_triggers
  write_insert-Inserting n row s h =
      let q = write_insert-Quiet x.externs db (some id) t n row s in
      let e = dbs-write_insert x.externs db (some id) t n row s in
      record {
        writes = inserted s t n row h.inserting.writes h.free;
        quiet = rw q.triggers h.inserting.quiet;
        below = λ r old k.
            let k' = subst (λ m. row_in db t r m ≡ some old) e k in
            rw q.rowid_generators (
              ground (
                arith,
                k',
                row_in-store_insert db t n s row db t r,
                h.inserting.below r old,
                h.passed,
                nat_beq_iff n r,
              ));
      }

  module _ (params : List Value) (execute : ℕ → Statement → Option ℕ → Exec QueryResult)
      (select : Query → KvsState → Result QueryResult) where
    insert_row-Inserting :
        (schema : TableSchema) (supplied : Row) (s : KvsState)
        → Inserting s
        → Inserting (insert_row x db params (some id) execute select t schema supplied s).1
    unfolding insert_row next_rowid
    insert_row-Inserting schema supplied s h =
        let n = (get_next_rowid db t s).0 in
        let s' = (get_next_rowid db t s).1 in
        let row = fill_defaults n schema.columns supplied in
        let s'' = write_insert x.externs db (some id) t n row s' in
        let k = get_next_rowid-Taken s h in
        let k' = write_insert-Inserting n row s' k in
        let before =
          fire_triggers-none x db (some id) execute t TriggerEvent.insert TriggerTiming.before none
            (some row) s' k.inserting.quiet in
        let after' =
          fire_triggers-none x db (some id) execute t TriggerEvent.insert TriggerTiming.after none
            (some row) s'' k'.quiet in
        elim (Result-cases (validate_constraints x s' db schema row n)) [
          | inl (u, e) ↦ rw (e, before, after', insert_row) k'
          | inr (er, e) ↦ rw (e, insert_row) k.inserting
        ]

    insert_rows-Inserting :
        (schema : TableSchema) (rows : List Row) (s : KvsState)
        → Inserting s
        → Inserting (for_each (insert_row x db params (some id) execute select t schema) rows s).1
    unfolding for_each
    insert_rows-Inserting schema [] s h = h
    insert_rows-Inserting schema (row ∷ rows) s h =
        let f = insert_row x db params (some id) execute select t schema in
        let k = insert_row-Inserting schema row s h in
        elim (Result-cases (f row s).0) [
          | inl (u, e) ↦ rw (e, for_each) (insert_rows-Inserting schema rows (f row s).1 k)
          | inr (er, e) ↦ rw (e, for_each) k
        ]

    pub execute_insert-Inserting :
        (columns : List String) (source : Option Query) (s : KvsState)
        → Inserting s
        → Inserting (execute_insert x db params (some id) execute select t columns source s).1
    unfolding execute_insert
    execute_insert-Inserting columns source s h = elim (Option-cases (get_schema db t s)) [
      | inl e ↦ rw (e, execute_insert) h
      | inr (schema, e) ↦ elim (Option-cases (get_table_store db t s)) [
        | inl e' ↦ rw (e, e', execute_insert) h
        | inr (store, e') ↦
            elim (Result-cases (
              candidates x db params (some id) execute select
                (column_names x db params (some id) execute select schema columns) source s)) [
                  | inr (er, e'') ↦ rw (e, e', e'', execute_insert) h
                  | inl (rows, e'') ↦
                      let f =
                        for_each (insert_row x db params (some id) execute select t schema)
                          (or_one_row rows) in
                      let k = insert_rows-Inserting schema (or_one_row rows) s h in
                      elim (Result-cases (f s).0) [
                        | inl (u, e3) ↦ rw (e, e', e'', e3, execute_insert) k
                        | inr (er, e3) ↦ rw (e, e', e'', e3, execute_insert) k
                      ]
                ]
      ]
    ]
