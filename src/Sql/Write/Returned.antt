-- ===== src/Sql/Write/Returned.antt =====
-- src/transaction.rs, src/index.rs: the indexes after the rollback of a transaction.
use mathlib.Core.List.{reverse-append}
use skvs.Prelude.{
  ℕ, String, true, ◌≡◌, refl, sym, ap, ◌∙◌, inl, inr, Option, none, some, List, [], ◌∷◌, ◌++◌,
  nat_eq, string_eq, Option-cases, arith,
}
use skvs.Prelude.Map.{lookup, lookup-insert}
use skvs.Prelude.Nested.{get_in}
use skvs.Externs.{Externs}
use skvs.Value.{Row, RowId}
use skvs.State.{KvsState, Store, UndoOp, TxnEntry, get_schema, get_or_create_index_store}
use skvs.State.Rows.{row_at, has_table, SameRows, SameRows-refl, SameRows-trans, SameRows-of_eq}
use skvs.Transaction.{begin, rollback, undo_one, undo_all, undo_in_order}
use skvs.Sql.Write.Change.{Change, before, row_of, Synced, Synced-Written}
use skvs.Sql.Write.Indexed.{perform, undo_of, stored_by, perform-Synced, perform-Written}
use skvs.Sql.Write.Restore.{lookup-record_op}
use skvs.Sql.Write.Undone.{
  inverse, PlainFor, PlainFor-before, undo_one-Written, perform-Step, row_at-perform, Step-undone,
}

undo_all-append :
    (x : Externs) (db : ℕ) (ops : List UndoOp) (op : UndoOp) (s : KvsState)
    → undo_all x db (ops ++ op ∷ []) s ≡ undo_all x db ops (undo_one x db op s)
unfolding undo_all undo_in_order
undo_all-append x db ops op s = rw (reverse-append ops (op ∷ [])) refl

module _ (x : Externs) (db : ℕ) where
  -- The writes of statements of transaction `id` on tables of the database, with no real in an
  -- indexed column; `aside` is what changes neither a table, a schema, an index nor a transaction
  -- (a row id taken from its counter, a document of the full-text index).
  pub data PlainWrites (id : ℕ) (s₀ : KvsState) : KvsState → Type 0 where
    unwritten : PlainWrites id s₀ s₀
    written :
        (s : KvsState) (t : String) (r : RowId) (c : Change) (store : Store)
        → PlainWrites id s₀ s
        → get_in db t s.dbs ≡ some store
        → lookup r store ≡ before c
        → PlainFor x db none t r (row_of c) s
        → PlainWrites id s₀ (perform x db (some id) t r c s)
    aside :
        (s s' : KvsState)
        → PlainWrites id s₀ s
        → s'.dbs ≡ s.dbs
        → s'.schemas ≡ s.schemas
        → s'.indexes ≡ s.indexes
        → s'.txns ≡ s.txns
        → PlainWrites id s₀ s'

  -- The indexes are in step, and are so again after the journal is undone.
  record Returnable (id : ℕ) (s : KvsState) : Type 0 where
    synced : Synced x db s
    ops : List UndoOp
    opened : lookup id s.txns.active ≡ some (record { db_id = db; journal = ops })
    back :
        (u : KvsState)
        → SameRows u.dbs s.dbs
        → u.schemas ≡ s.schemas
        → Synced x db u
        → Synced x db (undo_all x db ops u)

  -- A table of one state is in another with the same rows.
  store-SameRows :
      (u s : KvsState) (t : String) (r : RowId) (row : Option Row)
      → SameRows u.dbs s.dbs
      → has_table db t s.dbs ≡ true
      → row_at db t r s ≡ row
      → (store : Store) × (get_in db t u.dbs ≡ some store) × (lookup r store ≡ row)
  store-SameRows u s t r row h k e = elim (Option-cases (get_in db t u.dbs)) [
    | inl n ↦ absurd (ground (arith, h.tables db t, k, n))
    | inr (store, n) ↦ (store, n, ground (arith, h.rows db t r, e, n))
  ]

  schemas-perform :
      (tx : Option ℕ) (t : String) (r : RowId) (c : Change) (store : Store) (s : KvsState)
      → get_in db t s.dbs ≡ some store
      → (perform x db tx t r c s).schemas ≡ s.schemas
  schemas-perform tx t r c store s e =
      let h = perform-Written x db tx t r c store s e in h.schemas ∙ h.w_schemas

  get_schema-same :
      (t : String) (s s' : KvsState)
      → s'.schemas ≡ s.schemas
      → get_schema db t s' ≡ get_schema db t s
  unfolding get_schema
  get_schema-same t s s' e = ap (get_in db t) e

  undo_one-Synced :
      (tx : Option ℕ) (t : String) (r : RowId) (c : Change) (store store' : Store) (s u : KvsState)
      → Synced x db s
      → get_in db t s.dbs ≡ some store
      → lookup r store ≡ before c
      → PlainFor x db none t r (row_of c) s
      → Synced x db u
      → u.schemas ≡ s.schemas
      → get_in db t u.dbs ≡ some store'
      → lookup r store' ≡ before (inverse c)
      → Synced x db (undo_one x db (undo_of x db tx t r c) u)
  undo_one-Synced tx t r c store store' s u y e h p z g k l =
      Synced-Written x db t r (inverse c) store' u (stored_by x db tx t r (inverse c) u) _
        (undo_one-Written x db tx t r c store' u k l) z k l
        (λ schema idx n m.
          PlainFor-before x db none t r c store s y e h p schema idx
            (sym (get_schema-same t s u g) ∙ n) m)

  Returnable-perform :
      (id : ℕ) (t : String) (r : RowId) (c : Change) (store : Store) (s : KvsState)
      → Returnable id s
      → get_in db t s.dbs ≡ some store
      → lookup r store ≡ before c
      → PlainFor x db none t r (row_of c) s
      → Returnable id (perform x db (some id) t r c s)
  Returnable-perform id t r c store s u e h p =
      let s' = perform x db (some id) t r c s in
      let op = undo_of x db (some id) t r c in
      let step = perform-Step x db (some id) t r id c s (ground (arith, e, h)) in
      let there : has_table db t s'.dbs ≡ true = step.tables db t ∙ ground (arith, e) in
      record {
        synced = perform-Synced x db (some id) t r c store s u.synced e h p;
        ops = u.ops ++ op ∷ [];
        opened = rw step.txns (lookup-record_op x db id op s _ u.opened);
        back = λ v k g y.
            let (store', n, l) =
              store-SameRows v s' t r (before (inverse c)) k there
                (row_at-perform x db (some id) t r c store s e) in
            let g' = g ∙ schemas-perform (some id) t r c store s e in
            let w = undo_one-Written x db (some id) t r c store' v n l in
            rw (undo_all-append x db u.ops op v) (
              u.back (undo_one x db op v) (Step-undone x db id op s s' v step k)
                (w.schemas ∙ w.w_schemas ∙ g')
                (undo_one-Synced (some id) t r c store store' s v u.synced e h p y g' n l));
      }

  -- What the indexes are in step with is read from three fields.
  Synced-same :
      (s s' : KvsState)
      → s'.dbs ≡ s.dbs
      → s'.schemas ≡ s.schemas
      → s'.indexes ≡ s.indexes
      → Synced x db s
      → Synced x db s'
  unfolding get_schema get_or_create_index_store
  Synced-same s s' d c i y = record {
    apart = λ t schema e. y.apart t schema (sym (ap (get_in db t) c) ∙ e);
    plain = λ t schema store idx e f m.
        y.plain t schema store idx (sym (ap (get_in db t) c) ∙ e) (sym (ap (get_in db t) d) ∙ f) m;
    mirrors = λ t schema store idx e f m. rw i (
        y.mirrors t schema store idx (sym (ap (get_in db t) c) ∙ e) (sym (ap (get_in db t) d) ∙ f)
          m);
  }

  PlainWrites-Returnable :
      (id : ℕ) (s₀ s : KvsState) → Returnable id s₀ → PlainWrites id s₀ s → Returnable id s
  PlainWrites-Returnable id s₀ s u unwritten = u
  PlainWrites-Returnable id s₀ _ u (written s t r c store w e h p) =
      Returnable-perform id t r c store s (PlainWrites-Returnable id s₀ s u w) e h p
  PlainWrites-Returnable id s₀ s' u (aside s _ w d c i t) =
      let v = PlainWrites-Returnable id s₀ s u w in
      record {
        synced = Synced-same s s' d c i v.synced;
        ops = v.ops;
        opened = rw t v.opened;
        back = λ a h g y. v.back a (SameRows-trans h (SameRows-of_eq s'.dbs s.dbs d)) (g ∙ c) y;
      }

  begin-Returnable : (s : KvsState) → Synced x db s → Returnable (begin x db s).0 (begin x db s).1
  unfolding begin undo_all undo_in_order
  begin-Returnable s y =
      let e : TxnEntry = record { db_id = db; journal = [] } in
      record {
        synced = Synced-same s (begin x db s).1 refl refl refl y;
        ops = [];
        opened = ground (arith, lookup-insert s.txns.next_id s.txns.next_id e s.txns.active);
        back = λ u h g z. z;
      }

  -- If each index of each table lists under each value exactly the rows that have it, then this
  -- holds again after a transaction that is begun on a database, makes any number of INSERT,
  -- UPDATE and DELETE writes in that same database (each INSERT on a free row id, each UPDATE and
  -- DELETE on a row as it stands; between them row ids can be taken from the counters) and is
  -- rolled back, if nothing else changes the tables, their schemas, the indexes or the
  -- transactions, the indexes of a table have different names and no row, old or written, has a
  -- real in an indexed column.
  pub rollback-Synced :
      (s s' : KvsState)
      → Synced x db s
      → PlainWrites (begin x db s).0 (begin x db s).1 s'
      → Synced x db (rollback x (begin x db s).0 s').1
  unfolding rollback
  rollback-Synced s s' y w =
      let u = PlainWrites-Returnable _ _ s' (begin-Returnable s y) w in
      rw (u.opened, rollback)
        (u.back _ (SameRows-refl s'.dbs) refl (Synced-same s' _ refl refl refl u.synced))
