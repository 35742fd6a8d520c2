-- ===== src/Sql/Write.antt =====
-- src/sql/dml.rs: what each statement writes for one row, between the triggers that fire before and
-- after: the row, its entry in the journal, the indexes and the full-text index.
use skvs.Prelude.{ℕ, String, Bool, true, false, Option}
pub mod Restore
pub mod Indexed
pub mod Undone
pub mod Returned
pub mod Change
use skvs.Externs.{Externs}
use skvs.Value.{Row, RowId}
use skvs.State.{KvsState, insert_op, delete_op, update_op, store_insert, store_remove}
use skvs.Index.{IndexOp, update_indexes}
use skvs.Transaction.{journal, sync_fts_index, sync_fts_index_change}

module _ (x : Externs) (db : ℕ) (tx : Option ℕ) where
  -- What is written, journaled and indexed between the triggers.
  unfoldable pub write_insert : String → RowId → Row → KvsState → KvsState
  write_insert table r row s = sync_fts_index x db table r row false (
      update_indexes x db table row r IndexOp.insert
        (journal x tx (insert_op table r) (store_insert db table r row s)))

  unfoldable pub write_update : String → RowId → Row → Row → KvsState → KvsState
  write_update table r old new s = sync_fts_index_change x db table r old new (
      update_indexes x db table new r (IndexOp.update old)
        (journal x tx (update_op table r old) (store_insert db table r new s)))

  unfoldable pub write_delete : String → RowId → Row → KvsState → KvsState
  write_delete table r row s = sync_fts_index x db table r row true (
      update_indexes x db table row r IndexOp.delete
        (journal x tx (delete_op table r row) (store_remove db table r s)))
