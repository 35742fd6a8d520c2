-- ===== src/Sql/Write/Restore.antt =====
-- src/sql/dml.rs, src/transaction.rs: the writes of a transaction, and what its rollback leaves.
use text.Mathlib.TextEquality.{eq_iff}
use skvs.Prelude.{
  ℕ, String, true, false, ◌≡◌, refl, sym, ◌∙◌, ap, none, some, List, [], ◌∷◌, ◌++◌, arith, nat_eq,
  string_eq, nat_beq_iff,
}
use skvs.Prelude.Map.{lookup, insert, lookup-insert}
use skvs.Externs.{Externs}
use skvs.Error.{ok}
use skvs.Value.{Row, RowId}
use skvs.State.{
  KvsState, UndoOp, TxnEntry, TxnManager, insert_op, delete_op, update_op, store_insert,
  store_remove,
}
use skvs.State.Rows.{
  Tables, row_in, row_at, has_table, SameRows, SameRows-of_eq, SameRows-trans,
  has_table-store_insert, row_in-store_insert, has_table-store_remove, row_in-store_remove,
}
use skvs.Index.{IndexOp, update_indexes}
use skvs.Transaction.{begin, rollback, journal, record_op, undo_one, undo_all, undo_in_order}
use skvs.Transaction.Frame.{
  Aside, Aside-trans, update_indexes-Aside, sync_fts_index-Aside, sync_fts_index_change-Aside,
  dbs-journal, txns-store_insert, txns-store_remove,
}
use skvs.Transaction.Rollback.{undone, table_of, has_table-undo_one, row_in-undo_one, undo_all-snoc}
use skvs.Sql.Write.{write_insert, write_update, write_delete}

module _ (x : Externs) (db : ℕ) where
  -- The writes that statements of transaction `id` make, from the state `s₀`: each INSERT takes a
  -- row id that is free, each UPDATE and DELETE a row as it is; `aside` is what changes neither a
  -- table nor a transaction (a row id taken from its counter, an index, a view).
  pub data Writes (id : ℕ) (s₀ : KvsState) : KvsState → Type 0 where
    start : Writes id s₀ s₀
    inserted :
        (s : KvsState) (t : String) (r : RowId) (row : Row)
        → Writes id s₀ s
        → row_at db t r s ≡ none
        → Writes id s₀ (write_insert x db (some id) t r row s)
    updated :
        (s : KvsState) (t : String) (r : RowId) (old new : Row)
        → Writes id s₀ s
        → row_at db t r s ≡ some old
        → Writes id s₀ (write_update x db (some id) t r old new s)
    deleted :
        (s : KvsState) (t : String) (r : RowId) (row : Row)
        → Writes id s₀ s
        → row_at db t r s ≡ some row
        → Writes id s₀ (write_delete x db (some id) t r row s)
    aside : (s s' : KvsState) → Writes id s₀ s → s'.dbs ≡ s.dbs → s'.txns ≡ s.txns → Writes id s₀ s'

  -- The journal is open, and undoing it on the tables of `s` gives back those of `m`.
  record Undoable (id : ℕ) (m : Tables) (s : KvsState) : Type 0 where
    ops : List UndoOp
    opened : lookup id s.txns.active ≡ some (record { db_id = db; journal = ops })
    back : (t : KvsState) → t.dbs ≡ s.dbs → SameRows (undo_all x db ops t).dbs m

  -- What a write is: one change of a table that its journal entry undoes.
  pub record Step (id : ℕ) (op : UndoOp) (s s' : KvsState) : Type 0 where
    pub txns : s'.txns ≡ (record_op x id op s).txns
    pub tables : (d : ℕ) (t : String) → has_table d t s'.dbs ≡ has_table d t s.dbs
    pub rows :
        (d : ℕ) (t : String) (r : RowId)
        → undone x db op (has_table db (table_of x db op) s'.dbs) d t r (row_in d t r s'.dbs)
          ≡ row_in d t r s.dbs

  undo-Step :
      (id : ℕ) (op : UndoOp) (s s' t : KvsState)
      → Step id op s s'
      → t.dbs ≡ s'.dbs
      → SameRows (undo_one x db op t).dbs s.dbs
  undo-Step id op s s' t h e = record {
    tables = λ d n. has_table-undo_one x db op t d n ∙ rw e (h.tables d n);
    rows = λ d n r. row_in-undo_one x db op t d n r ∙ rw e (h.rows d n r);
  }

  pub lookup-record_op :
      (id : ℕ) (op : UndoOp) (s : KvsState) (e : TxnEntry)
      → lookup id s.txns.active ≡ some e
      → lookup id (record_op x id op s).txns.active
        ≡ some (record e { journal = e.journal ++ (op ∷ []) })
  unfolding record_op
  lookup-record_op id op s e h =
      let e' : TxnEntry = record e { journal = e.journal ++ (op ∷ []) } in
      rw (h, record_op) (ground (arith, lookup-insert id id e' s.txns.active))

  Undoable-Step :
      (id : ℕ) (m : Tables) (op : UndoOp) (s s' : KvsState)
      → Step id op s s'
      → Undoable id m s
      → Undoable id m s'
  Undoable-Step id m op s s' h u = record {
    ops = u.ops ++ (op ∷ []);
    opened = rw h.txns (lookup-record_op id op s _ u.opened);
    back = λ t e.
        SameRows-trans (undo_all-snoc x db u.ops op s t (undo-Step id op s s' t h e))
          (u.back s refl);
  }

  abbrev push_op : ℕ → UndoOp → TxnManager → TxnManager
  push_op id op m = elim (lookup id m.active) [
    | none ↦ m
    | some t ↦ record m {
      active = insert id (record t { journal = t.journal ++ (op ∷ []) }) m.active;
    }
  ]

  txns-record_op-push :
      (id : ℕ) (op : UndoOp) (s : KvsState) → (record_op x id op s).txns ≡ push_op id op s.txns
  unfolding record_op
  txns-record_op-push id op s = ground arith

  txns-record_op :
      (id : ℕ) (op : UndoOp) (s s' : KvsState)
      → s'.txns ≡ s.txns
      → (record_op x id op s').txns ≡ (record_op x id op s).txns
  txns-record_op id op s s' e =
      txns-record_op-push id op s' ∙ ap (push_op id op) e ∙ sym (txns-record_op-push id op s)

  -- A write is its change `w` of one table, its journal entry, and the indexes.
  Step-of_Aside :
      (id : ℕ) (op : UndoOp) (s w s' : KvsState)
      → Aside (journal x (some id) op w) s'
      → w.txns ≡ s.txns
      → ((d : ℕ) (t : String) → has_table d t w.dbs ≡ has_table d t s.dbs)
      → ((d : ℕ) (t : String) (r : RowId)
          → undone x db op (has_table db (table_of x db op) w.dbs) d t r (row_in d t r w.dbs)
            ≡ row_in d t r s.dbs)
      → Step id op s s'
  unfolding journal
  Step-of_Aside id op s w s' k e tables rows =
      let e' : s'.dbs ≡ w.dbs = k.dbs ∙ dbs-journal x (some id) op w in
      record {
        txns = k.txns ∙ txns-record_op id op s w e;
        tables = λ d t. rw e' (tables d t);
        rows = λ d t r. rw e' (rows d t r);
      }

  pub insert-Step :
      (id : ℕ) (t : String) (r : RowId) (row : Row) (s : KvsState)
      → row_at db t r s ≡ none
      → Step id (insert_op t r) s (write_insert x db (some id) t r row s)
  unfolding write_insert
  insert-Step id t r row s h =
      let w = store_insert db t r row s in
      let b = journal x (some id) (insert_op t r) w in
      let c = update_indexes x db t row r IndexOp.insert b in
      Step-of_Aside id (insert_op t r) s w _
        (Aside-trans (update_indexes-Aside x db t r row IndexOp.insert b)
          (sync_fts_index-Aside x db t r row false c))
        (txns-store_insert db t r row s) (has_table-store_insert db t r s row)
        (λ d n q. ground (
          arith,
          row_in-store_insert db t r s row d n q,
          nat_beq_iff db d,
          eq_iff t n,
          nat_beq_iff r q,
        ))

  -- A row that is there stands in a table that is there.
  has_table-row :
      (d : ℕ) (t : String) (r : RowId) (m : Tables) (row : Row)
      → row_in d t r m ≡ some row
      → has_table d t m ≡ true
  has_table-row d t r m row h = ground arith

  pub update-Step :
      (id : ℕ) (t : String) (r : RowId) (old new : Row) (s : KvsState)
      → row_at db t r s ≡ some old
      → Step id (update_op t r old) s (write_update x db (some id) t r old new s)
  unfolding write_update
  update-Step id t r old new s h =
      let w = store_insert db t r new s in
      let b = journal x (some id) (update_op t r old) w in
      let c = update_indexes x db t new r (IndexOp.update old) b in
      Step-of_Aside id (update_op t r old) s w _
        (Aside-trans (update_indexes-Aside x db t r new (IndexOp.update old) b)
          (sync_fts_index_change-Aside x db t r old new c))
        (txns-store_insert db t r new s) (has_table-store_insert db t r s new)
        (λ d n q. ground (
          arith,
          row_in-store_insert db t r s new d n q,
          has_table-store_insert db t r s new db t,
          has_table-row db t r s.dbs old h,
          nat_beq_iff db d,
          eq_iff t n,
          nat_beq_iff r q,
        ))

  pub delete-Step :
      (id : ℕ) (t : String) (r : RowId) (row : Row) (s : KvsState)
      → row_at db t r s ≡ some row
      → Step id (delete_op t r row) s (write_delete x db (some id) t r row s)
  unfolding write_delete
  delete-Step id t r row s h =
      let w = store_remove db t r s in
      let b = journal x (some id) (delete_op t r row) w in
      let c = update_indexes x db t row r IndexOp.delete b in
      Step-of_Aside id (delete_op t r row) s w _
        (Aside-trans (update_indexes-Aside x db t r row IndexOp.delete b)
          (sync_fts_index-Aside x db t r row true c))
        (txns-store_remove db t r s) (has_table-store_remove db t r s)
        (λ d n q. ground (
          arith,
          row_in-store_remove db t r s d n q,
          has_table-store_remove db t r s db t,
          has_table-row db t r s.dbs row h,
          nat_beq_iff db d,
          eq_iff t n,
          nat_beq_iff r q,
        ))

  Writes-Undoable :
      (id : ℕ) (m : Tables) (s₀ s : KvsState) → Undoable id m s₀ → Writes id s₀ s → Undoable id m s
  Writes-Undoable id m s₀ s u start = u
  Writes-Undoable id m s₀ _ u (inserted s t r row w h) =
      Undoable-Step id m _ s _ (insert-Step id t r row s h) (Writes-Undoable id m s₀ s u w)
  Writes-Undoable id m s₀ _ u (updated s t r old new w h) =
      Undoable-Step id m _ s _ (update-Step id t r old new s h) (Writes-Undoable id m s₀ s u w)
  Writes-Undoable id m s₀ _ u (deleted s t r row w h) =
      Undoable-Step id m _ s _ (delete-Step id t r row s h) (Writes-Undoable id m s₀ s u w)
  Writes-Undoable id m s₀ s' u (aside s _ w e e') =
      let v = Writes-Undoable id m s₀ s u w in
      record { ops = v.ops; opened = rw e' v.opened; back = λ t k. v.back t (k ∙ e) }

  begin-Undoable : (s : KvsState) → Undoable (begin x db s).0 s.dbs (begin x db s).1
  unfolding begin undo_all undo_in_order
  begin-Undoable s =
      let e : TxnEntry = record { db_id = db; journal = [] } in
      record {
        ops = [];
        opened = ground (arith, lookup-insert s.txns.next_id s.txns.next_id e s.txns.active);
        back = λ t k. SameRows-of_eq _ _ k;
      }

  rollback-Undoable :
      (id : ℕ) (m : Tables) (s : KvsState)
      → Undoable id m s
      → (rollback x id s).0 ≡ ok tt × SameRows (rollback x id s).1.dbs m
  unfolding rollback
  rollback-Undoable id m s u = rw (u.opened, rollback) (refl, u.back _ refl)

  -- A transaction that is begun on a database, makes any number of INSERT, UPDATE and DELETE
  -- writes in that same database (each INSERT on a free row id, each UPDATE and DELETE on a row as
  -- it stands, nothing else writing the tables or ending the transaction) and is rolled back
  -- leaves in every table the rows from before it, and the rollback succeeds.
  pub rollback-begin :
      (s s' : KvsState)
      → Writes (begin x db s).0 (begin x db s).1 s'
      → (rollback x (begin x db s).0 s').0 ≡ ok tt
        × SameRows (rollback x (begin x db s).0 s').1.dbs s.dbs
  rollback-begin s s' w =
      rollback-Undoable _ s.dbs s' (Writes-Undoable _ s.dbs _ s' (begin-Undoable s) w)
