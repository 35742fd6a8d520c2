-- ===== src/Sql/Write/Indexed.antt =====
-- src/sql/dml.rs, src/index.rs: each write of a statement keeps the indexes of its table in step.
use mathlib.Core.List.{Memᴰ}
use skvs.Prelude.{
  ℕ, String, Bool, true, false, ◌≡◌, refl, ◌∙◌, Option, none, some, nat_eq, string_eq, name_eq,
  arith,
}
use skvs.Prelude.Map.{lookup}
use skvs.Prelude.Nested.{get_in, put_in}
use skvs.Externs.{Externs}
use skvs.Value.{Row, RowId}
use skvs.Schema.{IndexDef, TableSchema}
use skvs.State.{
  KvsState, Store, UndoOp, insert_op, update_op, delete_op, get_schema, store_insert, store_remove,
  register_fts_table,
}
use skvs.Index.{IndexOp, update_indexes}
use skvs.Index.Mirror.{PlainRow}
use skvs.Transaction.{journal, record_op, sync_fts_index, sync_fts_index_change}
use skvs.Transaction.Frame.{
  Aside, Aside-trans, update_indexes-Aside, sync_fts_index-Aside, sync_fts_index_change-Aside,
  dbs-journal,
}
use skvs.Sql.Write.{write_insert, write_update, write_delete}
use skvs.Sql.Write.Change.{
  Change, added, taken, replaced, before, row_of, op_of, store_after, Synced, Written,
  Synced-Written,
}

module _ (x : Externs) where
  pub indexes-sync_fts_index :
      (db : ℕ) (t : String) (r : RowId) (row : Row) (is_delete : Bool) (s : KvsState)
      → (sync_fts_index x db t r row is_delete s).indexes ≡ s.indexes
  unfolding sync_fts_index register_fts_table
  indexes-sync_fts_index db t r row is_delete s = ground arith

  indexes-journal :
      (tx : Option ℕ) (op : UndoOp) (s : KvsState) → (journal x tx op s).indexes ≡ s.indexes
  unfolding journal record_op
  indexes-journal none op s = refl
  indexes-journal (some id) op s = ground arith

  schemas-journal :
      (tx : Option ℕ) (op : UndoOp) (s : KvsState) → (journal x tx op s).schemas ≡ s.schemas
  unfolding journal record_op
  schemas-journal none op s = refl
  schemas-journal (some id) op s = ground arith

  module _ (db : ℕ) (tx : Option ℕ) (t : String) (r : RowId) where
    abbrev pub perform : Change → KvsState → KvsState
    perform (added row) s = write_insert x db tx t r row s
    perform (taken row) s = write_delete x db tx t r row s
    perform (replaced old new) s = write_update x db tx t r old new s

    abbrev pub undo_of : Change → UndoOp
    undo_of (added row) = insert_op t r
    undo_of (taken row) = delete_op t r row
    undo_of (replaced old new) = update_op t r old

    abbrev pub stored_by : Change → KvsState → KvsState
    stored_by (added row) s = store_insert db t r row s
    stored_by (taken row) s = store_remove db t r s
    stored_by (replaced old new) s = store_insert db t r new s

    pub record Stored (c : Change) (store : Store) (s w : KvsState) : Type 0 where
      pub dbs : w.dbs ≡ put_in db t (store_after c r store) s.dbs
      pub schemas : w.schemas ≡ s.schemas
      pub indexes : w.indexes ≡ s.indexes

    pub stored_by-Stored :
        (c : Change) (store : Store) (s : KvsState)
        → get_in db t s.dbs ≡ some store
        → Stored c store s (stored_by c s)
    unfolding store_insert store_remove
    stored_by-Stored (added row) store s e =
        rw (e, store_insert) (record { dbs = refl; schemas = refl; indexes = refl })
    stored_by-Stored (taken row) store s e =
        rw (e, store_remove) (record { dbs = refl; schemas = refl; indexes = refl })
    stored_by-Stored (replaced old new) store s e =
        rw (e, store_insert) (record { dbs = refl; schemas = refl; indexes = refl })

    pub perform-Aside :
        (c : Change) (s : KvsState) → Aside (journal x tx (undo_of c) (stored_by c s)) (perform c s)
    unfolding write_insert write_delete write_update
    perform-Aside (added row) s =
        let b = journal x tx (insert_op t r) (store_insert db t r row s) in
        let k = update_indexes x db t row r IndexOp.insert b in
        Aside-trans (update_indexes-Aside x db t r row IndexOp.insert b)
          (sync_fts_index-Aside x db t r row false k)
    perform-Aside (taken row) s =
        let b = journal x tx (delete_op t r row) (store_remove db t r s) in
        let k = update_indexes x db t row r IndexOp.delete b in
        Aside-trans (update_indexes-Aside x db t r row IndexOp.delete b)
          (sync_fts_index-Aside x db t r row true k)
    perform-Aside (replaced old new) s =
        let b = journal x tx (update_op t r old) (store_insert db t r new s) in
        let k = update_indexes x db t new r (IndexOp.update old) b in
        Aside-trans (update_indexes-Aside x db t r new (IndexOp.update old) b)
          (sync_fts_index_change-Aside x db t r old new k)

    indexes-perform :
        (c : Change) (s : KvsState)
        → (perform c s).indexes
          ≡ (update_indexes x db t
              (row_of c)
              r
              (op_of c)
              (journal x tx (undo_of c) (stored_by c s))).indexes
    unfolding write_insert write_delete write_update sync_fts_index_change
    indexes-perform (added row) s = indexes-sync_fts_index db t r row false _
    indexes-perform (taken row) s = indexes-sync_fts_index db t r row true _
    indexes-perform (replaced old new) s =
        let b = journal x tx (update_op t r old) (store_insert db t r new s) in
        let k = update_indexes x db t new r (IndexOp.update old) b in
        indexes-sync_fts_index db t r new false (sync_fts_index x db t r old true k)
        ∙ indexes-sync_fts_index db t r old true k

    pub perform-Written :
        (c : Change) (store : Store) (s : KvsState)
        → get_in db t s.dbs ≡ some store
        → Written x db t r c store s (journal x tx (undo_of c) (stored_by c s)) (perform c s)
    perform-Written c store s e =
        let w = stored_by c s in
        let h = stored_by-Stored c store s e in
        let a = perform-Aside c s in
        record {
          w_dbs = dbs-journal x tx (undo_of c) w ∙ h.dbs;
          w_schemas = schemas-journal tx (undo_of c) w ∙ h.schemas;
          w_indexes = indexes-journal tx (undo_of c) w ∙ h.indexes;
          dbs = a.dbs;
          schemas = a.schemas;
          indexes = indexes-perform c s;
        }

    -- If each index of each table lists under each value exactly the rows that have it, then this
    -- still holds after an INSERT, UPDATE or DELETE writes a row (an INSERT on a free row id, an
    -- UPDATE and a DELETE on the row as it stands), if the indexes of a table have different names
    -- and no row has a real in an indexed column.
    pub perform-Synced :
        (c : Change) (store : Store) (s : KvsState)
        → Synced x db s
        → get_in db t s.dbs ≡ some store
        → lookup r store ≡ before c
        → ((schema : TableSchema) (idx : IndexDef)
            → get_schema db t s ≡ some schema
            → Memᴰ idx schema.indices
            → PlainRow x idx (row_of c))
        → Synced x db (perform c s)
    perform-Synced c store s synced e k p =
        Synced-Written x db t r c store s (journal x tx (undo_of c) (stored_by c s)) (perform c s)
          (perform-Written c store s e) synced e k p
