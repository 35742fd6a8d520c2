-- ===== src/Sql/Dml/Quiet.antt =====
-- src/sql/dml.rs, src/trigger.rs: a write on a table without triggers, and what it leaves alone.
use skvs.Prelude.{
  ℕ, String, true, false, ◌≡◌, refl, ◌∙◌, ◌⊎◌, inl, inr, Option, none, some, [], nat_eq, string_eq,
  arith,
}
use skvs.Externs.{Externs}
use skvs.Error.{SkvsError, Result, ok, err}
use skvs.Value.{Row, RowId}
use skvs.Schema.{TriggerEvent, TriggerTiming}
use skvs.State.{
  KvsState, UndoOp, insert_op, update_op, delete_op, get_triggers, store_insert, store_remove,
}
use skvs.Index.{IndexOp, update_indexes}
use skvs.Transaction.{journal, record_op}
use skvs.Transaction.Frame.{
  Aside, Aside-trans, update_indexes-Aside, sync_fts_index-Aside, sync_fts_index_change-Aside,
  dbs-journal,
}
use skvs.Trigger.{fire_triggers}
use skvs.Sql.Ast.{Statement}
use skvs.Sql.Env.{Env, QueryResult, Exec}
use skvs.Sql.Exec.{for_each}
use skvs.Sql.Write.{write_insert, write_update, write_delete}

pub Result-cases {ℓ} :
    {A : Type ℓ} (r : Result A) → ((a : A) × (r ≡ ok a)) ⊎ ((e : SkvsError) × (r ≡ err e))
Result-cases (ok a) = inl (a, refl)
Result-cases (err e) = inr (e, refl)

-- The triggers and the counters of row ids are the same.
pub record Quiet (s s' : KvsState) : Type 0 where
  pub triggers : s'.triggers ≡ s.triggers
  pub rowid_generators : s'.rowid_generators ≡ s.rowid_generators

Quiet-trans : {a b c : KvsState} → Quiet a b → Quiet b c → Quiet a c
Quiet-trans h k = record {
  triggers = k.triggers ∙ h.triggers;
  rowid_generators = k.rowid_generators ∙ h.rowid_generators;
}

Quiet-of_Aside : {s s' : KvsState} → Aside s s' → Quiet s s'
Quiet-of_Aside h = record { triggers = h.triggers; rowid_generators = h.rowid_generators }

journal-Quiet :
    (x : Externs) (tx : Option ℕ) (op : UndoOp) (s : KvsState) → Quiet s (journal x tx op s)
unfolding journal record_op
journal-Quiet x none op s = record { triggers = refl; rowid_generators = refl }
journal-Quiet x (some id) op s = record { triggers = ground arith; rowid_generators = ground arith }

module _ (x : Externs) (db : ℕ) (tx : Option ℕ) where
  store_insert-Quiet :
      (t : String) (r : RowId) (row : Row) (s : KvsState) → Quiet s (store_insert db t r row s)
  unfolding store_insert
  store_insert-Quiet t r row s = record { triggers = ground arith; rowid_generators = ground arith }

  store_remove-Quiet : (t : String) (r : RowId) (s : KvsState) → Quiet s (store_remove db t r s)
  unfolding store_remove
  store_remove-Quiet t r s = record { triggers = ground arith; rowid_generators = ground arith }

  pub write_insert-Quiet :
      (t : String) (r : RowId) (row : Row) (s : KvsState) → Quiet s (write_insert x db tx t r row s)
  unfolding write_insert
  write_insert-Quiet t r row s =
      let w = store_insert db t r row s in
      let b = journal x tx (insert_op t r) w in
      let c = update_indexes x db t row r IndexOp.insert b in
      Quiet-trans
        (Quiet-trans (store_insert-Quiet t r row s) (journal-Quiet x tx (insert_op t r) w))
        (Quiet-of_Aside (
          Aside-trans (update_indexes-Aside x db t r row IndexOp.insert b)
            (sync_fts_index-Aside x db t r row false c)))

  pub dbs-write_insert :
      (t : String) (r : RowId) (row : Row) (s : KvsState)
      → (write_insert x db tx t r row s).dbs ≡ (store_insert db t r row s).dbs
  unfolding write_insert
  dbs-write_insert t r row s =
      let w = store_insert db t r row s in
      let b = journal x tx (insert_op t r) w in
      let c = update_indexes x db t row r IndexOp.insert b in
      (Aside-trans (update_indexes-Aside x db t r row IndexOp.insert b)
        (sync_fts_index-Aside x db t r row false c)).dbs
      ∙ dbs-journal x tx (insert_op t r) w

  pub write_update-Quiet :
      (t : String) (r : RowId) (old new : Row) (s : KvsState)
      → Quiet s (write_update x db tx t r old new s)
  unfolding write_update
  write_update-Quiet t r old new s =
      let w = store_insert db t r new s in
      let b = journal x tx (update_op t r old) w in
      let c = update_indexes x db t new r (IndexOp.update old) b in
      Quiet-trans
        (Quiet-trans (store_insert-Quiet t r new s) (journal-Quiet x tx (update_op t r old) w))
        (Quiet-of_Aside (
          Aside-trans (update_indexes-Aside x db t r new (IndexOp.update old) b)
            (sync_fts_index_change-Aside x db t r old new c)))

  pub dbs-write_update :
      (t : String) (r : RowId) (old new : Row) (s : KvsState)
      → (write_update x db tx t r old new s).dbs ≡ (store_insert db t r new s).dbs
  unfolding write_update
  dbs-write_update t r old new s =
      let w = store_insert db t r new s in
      let b = journal x tx (update_op t r old) w in
      let c = update_indexes x db t new r (IndexOp.update old) b in
      (Aside-trans (update_indexes-Aside x db t r new (IndexOp.update old) b)
        (sync_fts_index_change-Aside x db t r old new c)).dbs
      ∙ dbs-journal x tx (update_op t r old) w

module _ (x : Externs) (db : ℕ) (tx : Option ℕ) where
  pub write_delete-Quiet :
      (t : String) (r : RowId) (row : Row) (s : KvsState) → Quiet s (write_delete x db tx t r row s)
  unfolding write_delete
  write_delete-Quiet t r row s =
      let w = store_remove db t r s in
      let b = journal x tx (delete_op t r row) w in
      let c = update_indexes x db t row r IndexOp.delete b in
      Quiet-trans
        (Quiet-trans (store_remove-Quiet x db tx t r s) (journal-Quiet x tx (delete_op t r row) w))
        (Quiet-of_Aside (
          Aside-trans (update_indexes-Aside x db t r row IndexOp.delete b)
            (sync_fts_index-Aside x db t r row true c)))

  pub dbs-write_delete :
      (t : String) (r : RowId) (row : Row) (s : KvsState)
      → (write_delete x db tx t r row s).dbs ≡ (store_remove db t r s).dbs
  unfolding write_delete
  dbs-write_delete t r row s =
      let w = store_remove db t r s in
      let b = journal x tx (delete_op t r row) w in
      let c = update_indexes x db t row r IndexOp.delete b in
      (Aside-trans (update_indexes-Aside x db t r row IndexOp.delete b)
        (sync_fts_index-Aside x db t r row true c)).dbs
      ∙ dbs-journal x tx (delete_op t r row) w

-- A table without triggers fires none.
pub fire_triggers-none :
    (x : Env) (db : ℕ) (tx : Option ℕ) (execute : ℕ → Statement → Option ℕ → Exec QueryResult)
    (t : String) (event : TriggerEvent) (timing : TriggerTiming) (old new : Option Row)
    (s : KvsState)
    → get_triggers db t s ≡ []
    → fire_triggers x db tx execute t event timing old new s ≡ (ok tt, s)
unfolding fire_triggers for_each
fire_triggers-none x db tx execute t event timing old new s h = rw (h, for_each) refl
