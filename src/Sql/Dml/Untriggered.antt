-- ===== src/Sql/Dml/Untriggered.antt =====
-- src/sql/dml.rs: what each row of a write does on a table without triggers.
use skvs.Prelude.{
  ℕ, String, ◌≡◌, refl, inl, inr, Option, none, some, List, [], ◌∷◌, nat_eq, string_eq,
}
use skvs.Error.{Result, ok, err}
use skvs.Value.{Value, Row, RowId}
use skvs.Schema.{TableSchema, TriggerEvent, TriggerTiming}
use skvs.State.{KvsState, get_triggers, get_next_rowid}
use skvs.Constraint.{validate_constraints}
use skvs.Sql.Ast.{Statement, Query, Assignment}
use skvs.Sql.Env.{Env, QueryResult, Exec}
use skvs.Sql.Exec.{for_each, continue}
use skvs.Sql.Write.{write_insert, write_update, write_delete}
use skvs.Sql.Dml.{insert_row, update_row, delete_row, assign, next_rowid, fill_defaults}
use skvs.Sql.Dml.Quiet.{
  Result-cases, write_insert-Quiet, write_update-Quiet, write_delete-Quiet, fire_triggers-none,
}

get_triggers-same :
    (db : ℕ) (t : String) (s s' : KvsState)
    → s'.triggers ≡ s.triggers
    → get_triggers db t s ≡ []
    → get_triggers db t s' ≡ []
unfolding get_triggers
get_triggers-same db t s s' e h = rw e h

continue-same :
    (r : Result (Unit {0})) (m n : Exec (Unit {0})) (s : KvsState)
    → m s ≡ n s
    → continue r (λ _. m) s ≡ continue r (λ _. n) s
continue-same (ok u) m n s h = h
continue-same (err e) m n s h = refl

-- Two loops whose bodies do the same as long as `Q` holds, which they keep, do the same.
pub for_each-same {ℓ κ} :
    {A : Type ℓ} (Q : KvsState → Type κ) (f g : A → Exec (Unit {0}))
    → ((a : A) (s : KvsState) → Q s → f a s ≡ g a s)
    → ((a : A) (s : KvsState) → Q s → Q (g a s).1)
    → (as' : List A) (s : KvsState) → Q s
    → for_each f as' s ≡ for_each g as' s
unfolding for_each
for_each-same Q f g same keeps [] s q = refl
for_each-same Q f g same keeps (a ∷ as') s q =
    rw (same a s q, for_each)
      (continue-same (g a s).0 (for_each f as') (for_each g as') (g a s).1
        (for_each-same Q f g same keeps as' (g a s).1 (keeps a s q)))

module _ (x : Env) (db : ℕ) (params : List Value) (tx : Option ℕ) (t : String) where
  abbrev Untriggered : KvsState → Type 0
  Untriggered s = get_triggers db t s ≡ []

  -- What a row's statement does without triggers.
  abbrev written_if : Result (Unit {0}) → KvsState → KvsState → Result (Unit {0}) × KvsState
  written_if (ok u) s' s = (ok tt, s')
  written_if (err e) s' s = (err e, s)

  abbrev pub only_update : TableSchema → List Assignment → RowId × Row → Exec (Unit {0})
  only_update schema assignments (r, old) s =
      let new = assign x params old assignments 0 old in
      written_if (validate_constraints x s db schema new r)
        (write_update x.externs db tx t r old new s) s

  pub only_update-Untriggered :
      (schema : TableSchema) (assignments : List Assignment) (row : RowId × Row) (s : KvsState)
      → Untriggered s
      → Untriggered (only_update schema assignments row s).1
  only_update-Untriggered schema assignments (r, old) s h =
      let new = assign x params old assignments 0 old in
      elim (Result-cases (validate_constraints x s db schema new r)) [
        | inl (u, e) ↦
            rw (e, only_update)
              (get_triggers-same db t s (write_update x.externs db tx t r old new s)
                (write_update-Quiet x.externs db tx t r old new s).triggers h)
        | inr (er, e) ↦ rw (e, only_update) h
      ]

  module _ (execute : ℕ → Statement → Option ℕ → Exec QueryResult)
      (select : Query → KvsState → Result QueryResult) where
    pub update_row-only :
        (schema : TableSchema) (assignments : List Assignment) (row : RowId × Row) (s : KvsState)
        → Untriggered s
        → update_row x db params tx execute select t schema assignments row s
          ≡ only_update schema assignments row s
    unfolding update_row
    update_row-only schema assignments (r, old) s h =
        let new = assign x params old assignments 0 old in
        let s' = write_update x.externs db tx t r old new s in
        let before =
          fire_triggers-none x db tx execute t TriggerEvent.update TriggerTiming.before (some old)
            (some new) s h in
        let after' =
          fire_triggers-none x db tx execute t TriggerEvent.update TriggerTiming.after (some old)
            (some new) s'
            (get_triggers-same db t s s' (write_update-Quiet x.externs db tx t r old new s).triggers
              h) in
        elim (Result-cases (validate_constraints x s db schema new r)) [
          | inl (u, e) ↦ rw (e, before, after', update_row) refl
          | inr (er, e) ↦ rw (e, update_row) refl
        ]

  abbrev pub only_delete : RowId × Row → Exec (Unit {0})
  only_delete (r, row) s = (ok tt, write_delete x.externs db tx t r row s)

  pub only_delete-Untriggered :
      (row : RowId × Row) (s : KvsState) → Untriggered s → Untriggered (only_delete row s).1
  only_delete-Untriggered (r, row) s h =
      get_triggers-same db t s (write_delete x.externs db tx t r row s)
        (write_delete-Quiet x.externs db tx t r row s).triggers h

  abbrev pub only_insert : TableSchema → Row → Exec (Unit {0})
  only_insert schema supplied s =
      let n : ℕ = (get_next_rowid db t s).0 in
      let s' : KvsState = (get_next_rowid db t s).1 in
      let row = fill_defaults n schema.columns supplied in
      written_if (validate_constraints x s' db schema row n)
        (write_insert x.externs db tx t n row s') s'

  triggers-get_next_rowid : (s : KvsState) → (get_next_rowid db t s).1.triggers ≡ s.triggers
  unfolding get_next_rowid
  triggers-get_next_rowid s = refl

  pub only_insert-Untriggered :
      (schema : TableSchema) (supplied : Row) (s : KvsState)
      → Untriggered s
      → Untriggered (only_insert schema supplied s).1
  only_insert-Untriggered schema supplied s h =
      let n = (get_next_rowid db t s).0 in
      let s' = (get_next_rowid db t s).1 in
      let row = fill_defaults n schema.columns supplied in
      let k = get_triggers-same db t s s' (triggers-get_next_rowid s) h in
      elim (Result-cases (validate_constraints x s' db schema row n)) [
        | inl (u, e) ↦
            rw (e, only_insert)
              (get_triggers-same db t s' (write_insert x.externs db tx t n row s')
                (write_insert-Quiet x.externs db tx t n row s').triggers k)
        | inr (er, e) ↦ rw (e, only_insert) k
      ]

  module _ (execute : ℕ → Statement → Option ℕ → Exec QueryResult)
      (select : Query → KvsState → Result QueryResult) where
    pub delete_row-only :
        (row : RowId × Row) (s : KvsState)
        → Untriggered s
        → delete_row x db params tx execute select t row s ≡ only_delete row s
    unfolding delete_row
    delete_row-only (r, row) s h =
        let s' = write_delete x.externs db tx t r row s in
        let first =
          fire_triggers-none x db tx execute t TriggerEvent.delete TriggerTiming.before (some row)
            none s h in
        let last =
          fire_triggers-none x db tx execute t TriggerEvent.delete TriggerTiming.after (some row)
            none s' (only_delete-Untriggered (r, row) s h) in
        rw (first, last, delete_row) refl

    pub insert_row-only :
        (schema : TableSchema) (supplied : Row) (s : KvsState)
        → Untriggered s
        → insert_row x db params tx execute select t schema supplied s
          ≡ only_insert schema supplied s
    unfolding insert_row next_rowid
    insert_row-only schema supplied s h =
        let n = (get_next_rowid db t s).0 in
        let s' = (get_next_rowid db t s).1 in
        let row = fill_defaults n schema.columns supplied in
        let s'' = write_insert x.externs db tx t n row s' in
        let k = get_triggers-same db t s s' (triggers-get_next_rowid s) h in
        let first =
          fire_triggers-none x db tx execute t TriggerEvent.insert TriggerTiming.before none
            (some row) s' k in
        let last =
          fire_triggers-none x db tx execute t TriggerEvent.insert TriggerTiming.after none
            (some row) s''
            (get_triggers-same db t s' s'' (write_insert-Quiet x.externs db tx t n row s').triggers
              k) in
        elim (Result-cases (validate_constraints x s' db schema row n)) [
          | inl (u, e) ↦ rw (e, first, last, insert_row) refl
          | inr (er, e) ↦ rw (e, insert_row) refl
        ]
