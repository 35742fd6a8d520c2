-- ===== src/Transaction/Elsewhere.antt =====
-- src/transaction.rs: a rollback and the databases other than the one of the transaction.
use mathlib.Core.List.{reverse}
use skvs.Prelude.{
  ℕ, String, false, ◌≡◌, refl, ◌∙◌, some, List, [], ◌∷◌, nat_eq, string_eq, ◌==◌, arith,
}
use skvs.Prelude.Map.{lookup}
use skvs.Error.{ok}
use skvs.Externs.{Externs}
use skvs.Value.{RowId}
use skvs.State.{KvsState, UndoOp, insert_op, delete_op, update_op, TxnEntry}
use skvs.State.Rows.{row_at}
use skvs.Transaction.{rollback, end_txn, undo_one, undo_in_order, undo_all}
use skvs.Transaction.Rollback.{row_in-undo_one}

module _ (x : Externs) (db d : ℕ) (other : (db == d) ≡ false) (t : String) (r : RowId) where
  row_at-undo_one :
      (op : UndoOp) (s : KvsState) → row_at d t r (undo_one x db op s) ≡ row_at d t r s
  row_at-undo_one (insert_op n q) s =
      ground (arith, row_in-undo_one x db (insert_op n q) s d t r, other)
  row_at-undo_one (delete_op n q row) s =
      ground (arith, row_in-undo_one x db (delete_op n q row) s d t r, other)
  row_at-undo_one (update_op n q row) s =
      ground (arith, row_in-undo_one x db (update_op n q row) s d t r, other)

  row_at-undo_in_order :
      (ops : List UndoOp) (s : KvsState) → row_at d t r (undo_in_order x db ops s) ≡ row_at d t r s
  unfolding undo_in_order
  row_at-undo_in_order [] s = refl
  row_at-undo_in_order (op ∷ ops) s =
      row_at-undo_in_order ops (undo_one x db op s) ∙ row_at-undo_one op s

-- The rollback of an open transaction succeeds and changes no row of any database but the one that
-- the transaction was begun on, so that what was written elsewhere under its id stays.
pub rollback-elsewhere :
    (x : Externs) (id d : ℕ) (t : String) (r : RowId) (e : TxnEntry) (s : KvsState)
    → lookup id s.txns.active ≡ some e
    → (e.db_id == d) ≡ false
    → (rollback x id s).0 ≡ ok tt × row_at d t r (rollback x id s).1 ≡ row_at d t r s
unfolding rollback undo_all
rollback-elsewhere x id d t r e s h other =
    rw (h, rollback)
      (refl, row_at-undo_in_order x e.db_id d other t r (reverse e.journal) (end_txn x id s))
