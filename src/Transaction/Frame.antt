-- ===== src/Transaction/Frame.antt =====
-- src/index.rs, src/transaction.rs, src/sql/dml.rs: the indexes, the full-text index and the
-- journal are kept outside the tables, and the first two outside the transactions.
use skvs.Prelude.{
  ℕ, String, Bool, true, false, ◌≡◌, refl, ◌∙◌, inl, inr, Option, none, some, List, [], ◌∷◌,
  Option-cases, arith,
}
use skvs.Externs.{Externs}
use skvs.Value.{Row, RowId}
use skvs.Schema.{IndexDef}
use skvs.State.{
  KvsState, UndoOp, get_schema, register_fts_table, set_index_store, store_insert, store_remove,
}
use skvs.Index.{
  IndexOp, insert, delete, update, add_to_index, remove_from_index, update_index, update_each,
  update_indexes,
}
use skvs.Transaction.{sync_fts_index, sync_fts_index_change, record_op, journal}

-- A change outside the tables, the schemas and the transactions.
pub record Aside (s s' : KvsState) : Type 0 where
  pub dbs : s'.dbs ≡ s.dbs
  pub schemas : s'.schemas ≡ s.schemas
  pub txns : s'.txns ≡ s.txns
  pub triggers : s'.triggers ≡ s.triggers
  pub rowid_generators : s'.rowid_generators ≡ s.rowid_generators

pub Aside-refl : (s : KvsState) → Aside s s
Aside-refl s = record {
  dbs = refl;
  schemas = refl;
  txns = refl;
  triggers = refl;
  rowid_generators = refl;
}

pub Aside-trans : {a b c : KvsState} → Aside a b → Aside b c → Aside a c
Aside-trans h k = record {
  dbs = k.dbs ∙ h.dbs;
  schemas = k.schemas ∙ h.schemas;
  txns = k.txns ∙ h.txns;
  triggers = k.triggers ∙ h.triggers;
  rowid_generators = k.rowid_generators ∙ h.rowid_generators;
}

module _ (x : Externs) (db : ℕ) (table : String) (r : RowId) where
  update_index-Aside :
      (row : Row) (op : IndexOp) (idx : IndexDef) (s : KvsState)
      → Aside s (update_index x db table row r op idx s)
  unfolding update_index add_to_index remove_from_index set_index_store
  update_index-Aside row insert idx s = record {
    dbs = refl;
    schemas = refl;
    txns = refl;
    triggers = refl;
    rowid_generators = refl;
  }
  update_index-Aside row delete idx s = record {
    dbs = refl;
    schemas = refl;
    txns = refl;
    triggers = refl;
    rowid_generators = refl;
  }
  update_index-Aside row (update old) idx s = record {
    dbs = refl;
    schemas = refl;
    txns = refl;
    triggers = refl;
    rowid_generators = refl;
  }

  update_each-Aside :
      (row : Row) (op : IndexOp) (idxs : List IndexDef) (s : KvsState)
      → Aside s (update_each x db table row r op idxs s)
  unfolding update_each
  update_each-Aside row op [] s = Aside-refl s
  update_each-Aside row op (i ∷ is) s =
      Aside-trans (update_index-Aside row op i s)
        (update_each-Aside row op is (update_index x db table row r op i s))

  pub update_indexes-Aside :
      (row : Row) (op : IndexOp) (s : KvsState) → Aside s (update_indexes x db table row r op s)
  unfolding update_indexes
  update_indexes-Aside row op s = elim (Option-cases (get_schema db table s)) [
    | inl e ↦ rw (e, update_indexes) (Aside-refl s)
    | inr (schema, e) ↦ rw (e, update_indexes) (update_each-Aside row op schema.indices s)
  ]

  pub sync_fts_index-Aside :
      (row : Row) (is_delete : Bool) (s : KvsState)
      → Aside s (sync_fts_index x db table r row is_delete s)
  unfolding sync_fts_index register_fts_table
  sync_fts_index-Aside row is_delete s = ground arith

  pub sync_fts_index_change-Aside :
      (old new : Row) (s : KvsState) → Aside s (sync_fts_index_change x db table r old new s)
  unfolding sync_fts_index_change
  sync_fts_index_change-Aside old new s =
      Aside-trans (sync_fts_index-Aside old true s)
        (sync_fts_index-Aside new false (sync_fts_index x db table r old true s))

pub dbs-journal :
    (x : Externs) (tx : Option ℕ) (op : UndoOp) (s : KvsState) → (journal x tx op s).dbs ≡ s.dbs
unfolding journal record_op
dbs-journal x none op s = refl
dbs-journal x (some id) op s = ground arith

pub txns-store_insert :
    (db : ℕ) (table : String) (r : RowId) (row : Row) (s : KvsState)
    → (store_insert db table r row s).txns ≡ s.txns
unfolding store_insert
txns-store_insert db table r row s = ground arith

pub txns-store_remove :
    (db : ℕ) (table : String) (r : RowId) (s : KvsState) → (store_remove db table r s).txns ≡ s.txns
unfolding store_remove
txns-store_remove db table r s = ground arith
