-- ===== src/Transaction/Ended.antt =====
-- src/transaction.rs: a transaction ends once.
use skvs.Prelude.{
  ℕ, String, true, false, ◌≡◌, refl, ◌∙◌, inl, inr, Option, none, some, List, [], ◌∷◌, unwrap_or,
  Option-cases, nat_eq, nat_beq_iff, arith,
}
use mathlib.Core.List.{reverse}
use skvs.Prelude.Map.{lookup, lookup-remove}
use skvs.Externs.{Externs}
use skvs.Error.{SkvsError, Result, err}
use skvs.Value.{Row, RowId}
use skvs.State.{
  KvsState, UndoOp, insert_op, delete_op, update_op, get_table_store, store_insert, store_remove,
}
use skvs.Index.{IndexOp, update_indexes}
use skvs.Transaction.{
  commit, rollback, undo_insert, undo_delete, undo_update, undo_one, undo_in_order, undo_all,
  end_txn, sync_if,
}
use skvs.Transaction.Frame.{
  update_indexes-Aside, sync_fts_index-Aside, sync_fts_index_change-Aside, txns-store_insert,
  txns-store_remove,
}

pub data Ending : Type 0 where
  by_commit by_rollback : Ending

module _ (x : Externs) (db : ℕ) where
  txns-undo_insert :
      (t : String) (r : RowId) (s : KvsState) → (undo_insert x db t r s).txns ≡ s.txns
  unfolding undo_insert
  txns-undo_insert t r s = elim (Option-cases (get_table_store db t s)) [
    | inl e ↦ ground arith
    | inr (store, e) ↦ elim (Option-cases (lookup r store)) [
      | inl k ↦ ground arith
      | inr (row, k) ↦
          let w = store_remove db t r s in
          let v = update_indexes x db t row r IndexOp.delete w in
          rw (e, k, undo_insert)
            ((sync_fts_index-Aside x db t r row true v).txns
              ∙ (update_indexes-Aside x db t r row IndexOp.delete w).txns
              ∙ txns-store_remove db t r s)
    ]
  ]

  txns-undo_delete :
      (t : String) (r : RowId) (row : Row) (s : KvsState)
      → (undo_delete x db t r row s).txns ≡ s.txns
  unfolding undo_delete
  txns-undo_delete t r row s = elim (Option-cases (get_table_store db t s)) [
    | inl e ↦ ground arith
    | inr (store, e) ↦
        let w = store_insert db t r row s in
        let v = update_indexes x db t row r IndexOp.insert w in
        rw (e, undo_delete)
          ((sync_fts_index-Aside x db t r row false v).txns
            ∙ (update_indexes-Aside x db t r row IndexOp.insert w).txns
            ∙ txns-store_insert db t r row s)
  ]

  txns-sync_if :
      (t : String) (r : RowId) (current : Option Row) (old : Row) (s : KvsState)
      → (sync_if x db t r current old s).txns ≡ s.txns
  txns-sync_if t r none old s = refl
  txns-sync_if t r (some row) old s = (sync_fts_index_change-Aside x db t r row old s).txns

  txns-undo_update :
      (t : String) (r : RowId) (old : Row) (s : KvsState)
      → (undo_update x db t r old s).txns ≡ s.txns
  unfolding undo_update
  txns-undo_update t r old s = elim (Option-cases (get_table_store db t s)) [
    | inl e ↦ ground arith
    | inr (store, e) ↦
        let op = IndexOp.update (unwrap_or (lookup r store) []) in
        let w = store_insert db t r old s in
        rw (e, undo_update)
          (txns-sync_if t r (lookup r store) old (update_indexes x db t old r op w)
            ∙ (update_indexes-Aside x db t r old op w).txns
            ∙ txns-store_insert db t r old s)
  ]

  txns-undo_one : (op : UndoOp) (s : KvsState) → (undo_one x db op s).txns ≡ s.txns
  unfolding undo_one
  txns-undo_one (insert_op t r) s = txns-undo_insert t r s
  txns-undo_one (delete_op t r row) s = txns-undo_delete t r row s
  txns-undo_one (update_op t r row) s = txns-undo_update t r row s

  txns-undo_in_order : (ops : List UndoOp) (s : KvsState) → (undo_in_order x db ops s).txns ≡ s.txns
  unfolding undo_in_order
  txns-undo_in_order [] s = refl
  txns-undo_in_order (op ∷ ops) s = txns-undo_in_order ops (undo_one x db op s) ∙ txns-undo_one op s

module _ (x : Externs) where
  abbrev pub end : Ending → ℕ → KvsState → Result (Unit {0}) × KvsState
  end by_commit id s = commit x id s
  end by_rollback id s = rollback x id s

  -- A transaction that is not there does not end.
  end-none :
      (e : Ending) (id : ℕ) (s : KvsState)
      → lookup id s.txns.active ≡ none
      → end e id s ≡ (err SkvsError.transaction, s)
  unfolding commit rollback
  end-none by_commit id s h = rw (h, commit) refl
  end-none by_rollback id s h = rw (h, rollback) refl

  active-end_txn : (id : ℕ) (s : KvsState) → lookup id (end_txn x id s).txns.active ≡ none
  active-end_txn id s = ground (arith, lookup-remove id id s.txns.active, nat_beq_iff id id)

  active-end : (e : Ending) (id : ℕ) (s : KvsState) → lookup id (end e id s).1.txns.active ≡ none
  unfolding commit rollback undo_all
  active-end by_commit id s = elim (Option-cases (lookup id s.txns.active)) [
    | inl h ↦ rw (h, commit) h
    | inr (t, h) ↦ rw (h, commit) (active-end_txn id s)
  ]
  active-end by_rollback id s = elim (Option-cases (lookup id s.txns.active)) [
    | inl h ↦ rw (h, rollback) h
    | inr (t, h) ↦
        rw (h, rollback)
          (rw (txns-undo_in_order x t.db_id (reverse t.journal) (end_txn x id s))
            (active-end_txn id s))
  ]

  -- Once a transaction has been committed or rolled back, or was not there, a commit and a
  -- rollback of it fail with a transaction error and leave the state as it is.
  pub end-end :
      (first second : Ending) (id : ℕ) (s : KvsState)
      → let s' = (end first id s).1 in end second id s' ≡ (err SkvsError.transaction, s')
  end-end first second id s = end-none second id (end first id s).1 (active-end first id s)
