-- ===== src/Transaction.antt =====
-- src/transaction.rs: the undo journals, and the full-text index that they keep in step
-- (`sync_fts_index` of src/sql/dml.rs).
pub mod Frame
pub mod Rollback
pub mod Ended
pub mod Elsewhere
use skvs.Prelude.{
  ℕ, ◌+◌, ◌%◌, ◌^◌, String, Bool, true, false, Option, none, some, List, [], ◌∷◌, ◌++◌, unwrap_or,
  is_some, nat_eq, string_eq,
}
use mathlib.Core.List.{reverse}
use skvs.Prelude.Map.{Map, lookup, insert, remove}
use skvs.Error.{SkvsError, Result, ok, err}
use skvs.Externs.{Externs}
use skvs.Value.{Value, Row, RowId, text}
use skvs.Fts.{FtsVirtualTable, add_document, remove_document}
use skvs.Index.{IndexOp, update_indexes}
use skvs.State.{
  KvsState, Store, UndoOp, insert_op, delete_op, update_op, TxnEntry, TxnManager, get_table_store,
  store_insert, store_remove, get_fts_table, register_fts_table,
}

module _ (x : Externs) where
  -- The text of the indexed column, if it is a text.
  abbrev content_of : FtsVirtualTable → Row → Option String
  content_of t row = elim (lookup t.content_column row) [ some (text s) ↦ some s | _ ↦ none ]

  abbrev change_fts : RowId → String → Bool → FtsVirtualTable → FtsVirtualTable
  change_fts r content true t = record t { index = remove_document x r content t.index }
  change_fts r content false t = record t { index = add_document x r content t.index }

  -- `row` is always given: the callers pass `Some`.
  unfoldable pub sync_fts_index : ℕ → String → RowId → Row → Bool → KvsState → KvsState
  sync_fts_index db table r row is_delete s = elim (get_fts_table db table s) [
    | none ↦ s
    | some t ↦ elim (content_of t row) [
      | none ↦ s
      | some content ↦ register_fts_table db table (change_fts r content is_delete t) s
    ]
  ]

  unfoldable pub sync_fts_index_change : ℕ → String → RowId → Row → Row → KvsState → KvsState
  sync_fts_index_change db table r old new s =
      sync_fts_index db table r new false (sync_fts_index db table r old true s)

  -- Ids are `u32` and wrap after 2 ^ 32 transactions.
  unfoldable pub begin : ℕ → KvsState → ℕ × KvsState
  begin db s =
      let id = s.txns.next_id in
      (
        id,
        record s {
          txns = record {
            next_id = (id + 1) % 2 ^ 32;
            active = insert id (record { db_id = db; journal = [] }) s.txns.active;
          };
        },
      )

  unfoldable pub record_op : ℕ → UndoOp → KvsState → KvsState
  record_op id op s = elim (lookup id s.txns.active) [
    | none ↦ s
    | some t ↦ record s {
      txns = record s.txns {
        active = insert id (record t { journal = t.journal ++ (op ∷ []) }) s.txns.active;
      };
    }
  ]

  abbrev pub end_txn : ℕ → KvsState → KvsState
  end_txn id s = record s { txns = record s.txns { active = remove id s.txns.active } }

  unfoldable pub commit : ℕ → KvsState → Result (Unit {0}) × KvsState
  commit id s = elim (lookup id s.txns.active) [
    | none ↦ (err SkvsError.transaction, s)
    | some _ ↦ (ok tt, end_txn id s)
  ]

  unfoldable pub undo_insert : ℕ → String → RowId → KvsState → KvsState
  undo_insert db table r s = elim (get_table_store db table s) [
    | none ↦ s
    | some store ↦ elim (lookup r store) [
      | none ↦ s
      | some row ↦
          sync_fts_index db table r row true
            (update_indexes x db table row r IndexOp.delete (store_remove db table r s))
    ]
  ]

  unfoldable pub undo_delete : ℕ → String → RowId → Row → KvsState → KvsState
  undo_delete db table r row s = elim (get_table_store db table s) [
    | none ↦ s
    | some store ↦
        sync_fts_index db table r row false
          (update_indexes x db table row r IndexOp.insert (store_insert db table r row s))
  ]

  abbrev pub sync_if : ℕ → String → RowId → Option Row → Row → KvsState → KvsState
  sync_if db table r none old s = s
  sync_if db table r (some current) old s = sync_fts_index_change db table r current old s

  unfoldable pub undo_update : ℕ → String → RowId → Row → KvsState → KvsState
  undo_update db table r old s = elim (get_table_store db table s) [
    | none ↦ s
    | some store ↦
        let current = lookup r store in
        sync_if db table r current old (
          update_indexes x db table old r (IndexOp.update (unwrap_or current []))
            (store_insert db table r old s))
  ]

  unfoldable pub undo_one : ℕ → UndoOp → KvsState → KvsState
  undo_one db (insert_op table r) s = undo_insert db table r s
  undo_one db (delete_op table r row) s = undo_delete db table r row s
  undo_one db (update_op table r old) s = undo_update db table r old s

  unfoldable pub undo_in_order : ℕ → List UndoOp → KvsState → KvsState
  undo_in_order db [] s = s
  undo_in_order db (op ∷ ops) s = undo_in_order db ops (undo_one db op s)

  -- The journal is replayed from its end.
  unfoldable pub undo_all : ℕ → List UndoOp → KvsState → KvsState
  undo_all db ops = undo_in_order db (reverse ops)

  unfoldable pub rollback : ℕ → KvsState → Result (Unit {0}) × KvsState
  rollback id s = elim (lookup id s.txns.active) [
    | none ↦ (err SkvsError.transaction, s)
    | some t ↦ (ok tt, undo_all t.db_id t.journal (end_txn id s))
  ]

  unfoldable pub is_active : ℕ → KvsState → Bool
  is_active id s = is_some (lookup id s.txns.active)

  -- src/sql/dml.rs: `journal`.
  unfoldable pub journal : Option ℕ → UndoOp → KvsState → KvsState
  journal none op s = s
  journal (some id) op s = record_op id op s
