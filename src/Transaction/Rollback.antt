-- ===== src/Transaction/Rollback.antt =====
-- src/transaction.rs: a rollback gives back the rows from before the writes of the transaction.
use mathlib.Core.List.{reverse, reverse-append}
use skvs.Prelude.{
  ℕ, String, Bool, true, false, ◌&&◌, ◌≡◌, sym, ◌∙◌, inl, inr, Option, none, some, List, [], ◌∷◌,
  ◌++◌, unwrap_or, Option-cases, arith, if◌then◌else◌, nat_eq, string_eq, nat_beq_iff,
}
use text.Mathlib.TextEquality.{eq_iff}
use skvs.Prelude.Map.{lookup}
use skvs.Prelude.Nested.{get_in}
use skvs.Externs.{Externs}
use skvs.Value.{Row, RowId}
use skvs.State.{
  KvsState, Store, UndoOp, insert_op, delete_op, update_op, get_table_store, store_insert,
  store_remove,
}
use skvs.State.Rows.{
  row_in, has_table, at_row, SameRows, SameRows-of_eq, has_table-store_insert, row_in-store_insert,
  has_table-store_remove, row_in-store_remove,
}
use skvs.Index.{IndexOp, update_indexes}
use skvs.Transaction.{undo_insert, undo_delete, undo_update, undo_one, undo_in_order, undo_all}
use skvs.Transaction.Frame.{update_indexes-Aside, sync_fts_index-Aside, sync_fts_index_change-Aside}

module _ (x : Externs) (db : ℕ) where
  -- The tables after each undo, as those after the write to the store alone.
  dbs-undo_delete :
      (t : String) (r : RowId) (row : Row) (s : KvsState)
      → (undo_delete x db t r row s).dbs ≡ (store_insert db t r row s).dbs
  unfolding undo_delete store_insert get_table_store
  dbs-undo_delete t r row s = elim (Option-cases (get_in db t s.dbs)) [
    | inl e ↦ ground arith
    | inr (store, e) ↦
        let s' = store_insert db t r row s in
        let s'' = update_indexes x db t row r IndexOp.insert s' in
        ground (
          arith,
          (update_indexes-Aside x db t r row IndexOp.insert s').dbs,
          (sync_fts_index-Aside x db t r row false s'').dbs,
        )
  ]

  dbs-undo_update :
      (t : String) (r : RowId) (old : Row) (s : KvsState)
      → (undo_update x db t r old s).dbs ≡ (store_insert db t r old s).dbs
  unfolding undo_update store_insert get_table_store
  dbs-undo_update t r old s = elim (Option-cases (get_in db t s.dbs)) [
    | inl e ↦ ground arith
    | inr (store, e) ↦
        let s' = store_insert db t r old s in
        let op = IndexOp.update (unwrap_or (lookup r store) []) in
        let s'' = update_indexes x db t old r op s' in
        ground (
          arith,
          (update_indexes-Aside x db t r old op s').dbs,
          (sync_fts_index_change-Aside x db t r (unwrap_or (lookup r store) []) old s'').dbs,
        )
  ]

  dbs-undo_insert :
      (t : String) (r : RowId) (s : KvsState) (store : Store) (row : Row)
      → get_in db t s.dbs ≡ some store
      → lookup r store ≡ some row
      → (undo_insert x db t r s).dbs ≡ (store_remove db t r s).dbs
  unfolding undo_insert get_table_store
  dbs-undo_insert t r s store row e e' =
      let s' = store_remove db t r s in
      let s'' = update_indexes x db t row r IndexOp.delete s' in
      ground (
        arith,
        (update_indexes-Aside x db t r row IndexOp.delete s').dbs,
        (sync_fts_index-Aside x db t r row true s'').dbs,
      )

  undo_insert-none :
      (t : String) (r : RowId) (s : KvsState)
      → row_in db t r s.dbs ≡ none
      → undo_insert x db t r s ≡ s
  unfolding undo_insert get_table_store
  undo_insert-none t r s e = elim (Option-cases (get_in db t s.dbs)) [
    | inl e' ↦ ground arith
    | inr (store, e') ↦ ground arith
  ]

  row_in-absent :
      (t : String) (r : RowId) (s : KvsState)
      → row_in db t r s.dbs ≡ none
      → (d' : ℕ) (t' : String) (r' : RowId)
      → row_in d' t' r' s.dbs ≡ row_in d' t' r' (store_remove db t r s).dbs
  row_in-absent t r s e d' t' r' = ground (
    arith,
    row_in-store_remove db t r s d' t' r',
    nat_beq_iff db d',
    eq_iff t t',
    nat_beq_iff r r',
  )

  SameRows-undo_insert :
      (t : String) (r : RowId) (s : KvsState)
      → SameRows (undo_insert x db t r s).dbs (store_remove db t r s).dbs
  SameRows-undo_insert t r s = elim (Option-cases (row_in db t r s.dbs)) [
    | inl e ↦ rw (undo_insert-none t r s e) (record {
      tables = λ d' t'. sym (has_table-store_remove db t r s d' t');
      rows = row_in-absent t r s e;
    })
    | inr (row, e) ↦ elim (Option-cases (get_in db t s.dbs)) [
      | inl e' ↦ absurd (ground arith)
      | inr (store, e') ↦ SameRows-of_eq _ _ (dbs-undo_insert t r s store row e' (ground arith))
    ]
  ]

  pub has_table-undo_one :
      (op : UndoOp) (s : KvsState) (d : ℕ) (t : String)
      → has_table d t (undo_one x db op s).dbs ≡ has_table d t s.dbs
  unfolding undo_one
  has_table-undo_one (insert_op t r) s d' t' =
      (SameRows-undo_insert t r s).tables d' t' ∙ has_table-store_remove db t r s d' t'
  has_table-undo_one (delete_op t r row) s d' t' =
      rw (dbs-undo_delete t r row s) (has_table-store_insert db t r s row d' t')
  has_table-undo_one (update_op t r row) s d' t' =
      rw (dbs-undo_update t r row s) (has_table-store_insert db t r s row d' t')

  -- The row that an undo leaves at a place, from the one before.
  abbrev pub undone : UndoOp → Bool → ℕ → String → RowId → Option Row → Option Row
  undone (insert_op t r) there d' t' r' before = if at_row db t r d' t' r' then none else before
  undone (delete_op t r row) there d' t' r' before =
      if at_row db t r d' t' r' && there then some row else before
  undone (update_op t r row) there d' t' r' before =
      if at_row db t r d' t' r' && there then some row else before

  abbrev pub table_of : UndoOp → String
  table_of (insert_op t r) = t
  table_of (delete_op t r row) = t
  table_of (update_op t r row) = t

  pub row_in-undo_one :
      (op : UndoOp) (s : KvsState) (d : ℕ) (t : String) (r : RowId)
      → row_in d t r (undo_one x db op s).dbs
        ≡ undone op (has_table db (table_of op) s.dbs) d t r (row_in d t r s.dbs)
  unfolding undo_one
  row_in-undo_one (insert_op t r) s d' t' r' =
      (SameRows-undo_insert t r s).rows d' t' r' ∙ row_in-store_remove db t r s d' t' r'
  row_in-undo_one (delete_op t r row) s d' t' r' =
      rw (dbs-undo_delete t r row s) (row_in-store_insert db t r s row d' t' r')
  row_in-undo_one (update_op t r row) s d' t' r' =
      rw (dbs-undo_update t r row s) (row_in-store_insert db t r s row d' t' r')

  SameRows-undo_one :
      (op : UndoOp) (s s' : KvsState)
      → SameRows s.dbs s'.dbs
      → SameRows (undo_one x db op s).dbs (undo_one x db op s').dbs
  SameRows-undo_one op s s' h = record {
    tables = λ d t. has_table-undo_one op s d t ∙ h.tables d t ∙ sym (has_table-undo_one op s' d t);
    rows = λ d t r. cc (
      row_in-undo_one op s d t r,
      row_in-undo_one op s' d t r,
      h.tables db (table_of op),
      h.rows d t r,
    );
  }

  SameRows-undo_in_order :
      (ops : List UndoOp) (s s' : KvsState)
      → SameRows s.dbs s'.dbs
      → SameRows (undo_in_order x db ops s).dbs (undo_in_order x db ops s').dbs
  unfolding undo_in_order
  SameRows-undo_in_order [] s s' h = h
  SameRows-undo_in_order (op ∷ ops) s s' h =
      SameRows-undo_in_order ops (undo_one x db op s) (undo_one x db op s')
        (SameRows-undo_one op s s' h)

  -- The last write of a journal is undone first.
  pub undo_all-snoc :
      (ops : List UndoOp) (op : UndoOp) (s t : KvsState)
      → SameRows (undo_one x db op t).dbs s.dbs
      → SameRows (undo_all x db (ops ++ op ∷ []) t).dbs (undo_all x db ops s).dbs
  unfolding undo_all undo_in_order
  undo_all-snoc ops op s t h =
      rw (reverse-append ops (op ∷ []))
        (SameRows-undo_in_order (reverse ops) (undo_one x db op t) s h)
