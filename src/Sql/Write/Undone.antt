-- ===== src/Sql/Write/Undone.antt =====
-- src/transaction.rs: the undo of a write is a write too, and keeps the indexes in step.
use mathlib.Core.List.{Memᴰ}
use skvs.Prelude.{
  ℕ, String, true, false, ◌≡◌, ap, ◌∙◌, Option, some, nat_eq, string_eq, nat_beq_iff, arith,
}
use text.Mathlib.TextEquality.{eq_iff}
use skvs.Prelude.Map.{lookup, lookup-insert, lookup-remove}
use skvs.Prelude.Nested.{get_in, get_in-put_in}
use skvs.Externs.{Externs}
use skvs.Value.{Row, RowId}
use skvs.Schema.{IndexDef, TableSchema}
use skvs.State.{KvsState, Store, UndoOp, get_schema, get_table_store, store_insert, store_remove}
use skvs.State.Rows.{row_in, row_at, SameRows}
use skvs.Index.{IndexOp, update_indexes}
use skvs.Index.Mirror.{PlainRow}
use skvs.Transaction.{
  undo_insert, undo_delete, undo_update, undo_one, sync_fts_index, sync_fts_index_change,
}
use skvs.Transaction.Frame.{
  Aside, Aside-trans, update_indexes-Aside, sync_fts_index-Aside, sync_fts_index_change-Aside,
}
use skvs.Transaction.Rollback.{table_of, has_table-undo_one, row_in-undo_one}
use skvs.Sql.Write.Change.{
  Change, added, taken, replaced, before, row_of, op_of, store_after, Synced, Written,
}
use skvs.Sql.Write.Indexed.{
  perform, undo_of, stored_by, stored_by-Stored, indexes-sync_fts_index, perform-Written,
}
use skvs.Sql.Write.Restore.{Step, insert-Step, update-Step, delete-Step}

-- The change that takes a change back, and the row that a change leaves.
abbrev pub inverse : Change → Change
inverse (added row) = taken row
inverse (taken row) = added row
inverse (replaced old new) = replaced new old

module _ (x : Externs) (db : ℕ) (tx : Option ℕ) (t : String) (r : RowId) where
  undo_one-Aside :
      (c : Change) (store : Store) (s : KvsState)
      → get_in db t s.dbs ≡ some store
      → lookup r store ≡ before (inverse c)
      → Aside (stored_by x db tx t r (inverse c) s) (undo_one x db (undo_of x db tx t r c) s)
  unfolding undo_one undo_insert undo_delete undo_update get_table_store
  undo_one-Aside (added row) store s e h =
      let w = store_remove db t r s in
      let k = update_indexes x db t row r IndexOp.delete w in
      rw (e, h, undo_insert)
        (Aside-trans (update_indexes-Aside x db t r row IndexOp.delete w)
          (sync_fts_index-Aside x db t r row true k))
  undo_one-Aside (taken row) store s e h =
      let w = store_insert db t r row s in
      let k = update_indexes x db t row r IndexOp.insert w in
      rw (e, undo_delete)
        (Aside-trans (update_indexes-Aside x db t r row IndexOp.insert w)
          (sync_fts_index-Aside x db t r row false k))
  undo_one-Aside (replaced old new) store s e h =
      let w = store_insert db t r old s in
      let k = update_indexes x db t old r (IndexOp.update new) w in
      rw (e, h, undo_update)
        (Aside-trans (update_indexes-Aside x db t r old (IndexOp.update new) w)
          (sync_fts_index_change-Aside x db t r new old k))

  undo_one-indexes :
      (c : Change) (store : Store) (s : KvsState)
      → get_in db t s.dbs ≡ some store
      → lookup r store ≡ before (inverse c)
      → (undo_one x db (undo_of x db tx t r c) s).indexes
        ≡ (update_indexes x db t
            (row_of (inverse c))
            r
            (op_of (inverse c))
            (stored_by x db tx t r (inverse c) s)).indexes
  unfolding undo_one undo_insert undo_delete undo_update get_table_store sync_fts_index_change
  undo_one-indexes (added row) store s e h =
      rw (e, h, undo_insert) (indexes-sync_fts_index x db t r row true _)
  undo_one-indexes (taken row) store s e h =
      rw (e, undo_delete) (indexes-sync_fts_index x db t r row false _)
  undo_one-indexes (replaced old new) store s e h =
      let w = store_insert db t r old s in
      let k = update_indexes x db t old r (IndexOp.update new) w in
      rw (e, h, undo_update)
        (indexes-sync_fts_index x db t r old false (sync_fts_index x db t r new true k)
          ∙ indexes-sync_fts_index x db t r new true k)

  pub undo_one-Written :
      (c : Change) (store : Store) (s : KvsState)
      → get_in db t s.dbs ≡ some store
      → lookup r store ≡ before (inverse c)
      → Written x db t r
          (inverse c)
          store
          s
          (stored_by x db tx t r (inverse c) s)
          (undo_one x db (undo_of x db tx t r c) s)
  undo_one-Written c store s e h =
      let a = undo_one-Aside c store s e h in
      let w = stored_by-Stored x db tx t r (inverse c) store s e in
      record {
        w_dbs = w.dbs;
        w_schemas = w.schemas;
        w_indexes = w.indexes;
        dbs = a.dbs;
        schemas = a.schemas;
        indexes = undo_one-indexes c store s e h;
      }

  -- The row is plain in the columns of every index of its table.
  abbrev pub PlainFor : Row → KvsState → Type 0
  PlainFor row s =
      (schema : TableSchema) (idx : IndexDef)
      → get_schema db t s ≡ some schema
      → Memᴰ idx schema.indices
      → PlainRow x idx row

  pub PlainFor-before :
      (c : Change) (store : Store) (s : KvsState)
      → Synced x db s
      → get_in db t s.dbs ≡ some store
      → lookup r store ≡ before c
      → PlainFor (row_of c) s
      → PlainFor (row_of (inverse c)) s
  PlainFor-before (added row) store s y e h p = p
  PlainFor-before (taken row) store s y e h p = p
  PlainFor-before (replaced old new) store s y e h p =
      λ schema idx k m. y.plain t schema store idx k e m r old h

  pub perform-Step :
      (id : ℕ) (c : Change) (s : KvsState)
      → row_at db t r s ≡ before c
      → Step x db id (undo_of x db tx t r c) s (perform x db (some id) t r c s)
  perform-Step id (added row) s h = insert-Step x db id t r row s h
  perform-Step id (taken row) s h = delete-Step x db id t r row s h
  perform-Step id (replaced old new) s h = update-Step x db id t r old new s h

  lookup-store_after :
      (c : Change) (store : Store) → lookup r (store_after c r store) ≡ before (inverse c)
  lookup-store_after (added row) store =
      ground (arith, lookup-insert r r row store, nat_beq_iff r r)
  lookup-store_after (taken row) store = ground (arith, lookup-remove r r store, nat_beq_iff r r)
  lookup-store_after (replaced old new) store =
      ground (arith, lookup-insert r r new store, nat_beq_iff r r)

  pub row_at-perform :
      (c : Change) (store : Store) (s : KvsState)
      → get_in db t s.dbs ≡ some store
      → row_at db t r (perform x db tx t r c s) ≡ before (inverse c)
  row_at-perform c store s e =
      let h = perform-Written x db tx t r c store s e in
      ap (row_in db t r) (h.dbs ∙ h.w_dbs)
      ∙ ground (
        arith,
        get_in-put_in db db t t (store_after c r store) s.dbs,
        lookup-store_after c store,
        nat_beq_iff db db,
        eq_iff t t,
      )

module _ (x : Externs) (db : ℕ) where
  pub Step-undone :
      (id : ℕ) (op : UndoOp) (s s' u : KvsState)
      → Step x db id op s s'
      → SameRows u.dbs s'.dbs
      → SameRows (undo_one x db op u).dbs s.dbs
  Step-undone id op s s' u h k = record {
    tables = λ d n. has_table-undo_one x db op u d n ∙ k.tables d n ∙ h.tables d n;
    rows = λ d n q. cc (
      row_in-undo_one x db op u d n q,
      k.tables db (table_of x db op),
      k.rows d n q,
      h.rows d n q,
    );
  }
