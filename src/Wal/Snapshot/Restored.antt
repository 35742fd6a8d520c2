-- ===== src/Wal/Snapshot/Restored.antt =====
-- src/wal.rs: the rows of a table that is loaded, and the counter of its row ids.
use package.text.Mathlib.TextEquality.{eq_iff}
use skvs.Prelude.{
  ℕ, ◌+◌, ◌≤◌, ◌<◌, max, String, false, ◌==◌, ap, ◌≡◌, refl, ◌∙◌, inl, inr, Option, none, some,
  List, [], ◌∷◌, unwrap_or, Option-cases, nat_eq, string_eq, nat_beq_iff, arith,
}
use skvs.Prelude.Map.{lookup, insert, lookup-insert, lookup-nil}
use skvs.Prelude.Nested.{get_in, get_in-put_in}
use skvs.Externs.{Externs}
use skvs.Value.{Row, RowId}
use skvs.Schema.{TableSchema, IndexDef}
use skvs.State.{KvsState, Store, set_min_next_rowid, set_index_store}
use skvs.State.Rows.{row_at}
use skvs.Index.{rebuild_index}
use skvs.Sql.Dml.Inserting.{counter, BelowCounter}
use skvs.Sql.Dml.Pending.{Apart, apart_cons, Distinct, distinct_cons}
use skvs.Wal.Snapshot.{
  put_schema, max_rowid, insert_rows, rebuild_each, rebuild_all, restore_rows, load_table,
}

lookup-Apart : (r : RowId) (rows : Store) → Apart r rows → lookup r rows ≡ none
unfolding lookup
lookup-Apart r [] a = refl
lookup-Apart r ((q, row) ∷ rest) (apart_cons n a) =
    ground (arith, lookup-Apart r rest a, nat_beq_iff q r)

module _ (x : Externs) where
  -- The rows of the file, and under other ids the rows of the table.
  abbrev pub over : Option Row → Option Row → Option Row
  over none old = old
  over (some row) old = some row

  pub lookup-insert_rows :
      (rows store : Store) (r : RowId)
      → Distinct rows
      → lookup r (insert_rows x rows store) ≡ over (lookup r rows) (lookup r store)
  unfolding lookup
  lookup-insert_rows [] store r d = refl
  lookup-insert_rows ((q, row) ∷ rest) store r (distinct_cons a d) = ground (
    arith,
    lookup-insert_rows rest (insert q row store) r d,
    lookup-insert q r row store,
    lookup-Apart q rest a,
    nat_beq_iff q r,
  )

  max_rowid-lookup :
      (rows : Store) (r : RowId) (row : Row) → lookup r rows ≡ some row → r ≤ max_rowid x rows
  unfolding lookup
  max_rowid-lookup [] r row h = ground arith
  max_rowid-lookup ((q, w) ∷ rest) r row h =
      ground (arith, max_rowid-lookup rest r row, nat_beq_iff q r)

  -- Rebuilding indexes changes neither a table nor a counter.
  record SameTables (s s' : KvsState) : Type 0 where
    dbs : s'.dbs ≡ s.dbs
    rowid_generators : s'.rowid_generators ≡ s.rowid_generators

  rebuild_index-SameTables :
      (db : ℕ) (t : String) (idx : IndexDef) (s : KvsState)
      → SameTables s (rebuild_index x db t idx s)
  unfolding rebuild_index set_index_store
  rebuild_index-SameTables db t idx s = record {
    dbs = ground arith;
    rowid_generators = ground arith;
  }

  rebuild_each-SameTables :
      (db : ℕ) (t : String) (is : List IndexDef) (s : KvsState)
      → SameTables s (rebuild_each x db t is s)
  rebuild_each-SameTables db t [] s = record { dbs = refl; rowid_generators = refl }
  rebuild_each-SameTables db t (i ∷ is) s =
      let h = rebuild_index-SameTables db t i s in
      let k = rebuild_each-SameTables db t is (rebuild_index x db t i s) in
      record { dbs = k.dbs ∙ h.dbs; rowid_generators = k.rowid_generators ∙ h.rowid_generators }

  rebuild_all-SameTables :
      (db : ℕ) (t : String) (s : KvsState) → SameTables s (rebuild_all x db t s)
  rebuild_all-SameTables db t s = elim (Option-cases (get_in db t s.schemas)) [
    | inl e ↦ rw (e, rebuild_all) (record { dbs = refl; rowid_generators = refl })
    | inr (schema, e) ↦ rw (e, rebuild_all) (rebuild_each-SameTables db t schema.indices s)
  ]

  dbs-put_schema :
      (db : ℕ) (t : String) (schema : Option TableSchema) (s : KvsState)
      → (put_schema x db t schema s).dbs ≡ s.dbs
  dbs-put_schema db t none s = refl
  dbs-put_schema db t (some schema) s = refl

  module _ (db : ℕ) (t : String) (schema : Option TableSchema) (rows : Store) (s : KvsState) where
    abbrev pub loaded : KvsState
    loaded = load_table x db (t, schema, rows) s

    abbrev before_rebuild : KvsState
    before_rebuild =
        set_min_next_rowid db t (max_rowid x rows + 1)
          (restore_rows x db t rows (put_schema x db t schema s))

    loaded-rebuilt : SameTables before_rebuild loaded
    unfolding load_table
    loaded-rebuilt = rebuild_all-SameTables db t before_rebuild

    pub stored : get_in db t s.dbs ≡ none → get_in db t loaded.dbs ≡ some (insert_rows x rows [])
    unfolding set_min_next_rowid
    stored e =
        let m = put_schema x db t schema s in
        let store = insert_rows x rows (unwrap_or (get_in db t m.dbs) []) in
        rw loaded-rebuilt.dbs (
          ground (
            arith,
            get_in-put_in db db t t store m.dbs,
            dbs-put_schema db t schema s,
            nat_beq_iff db db,
            eq_iff t t,
          ))

    pub stored_other : (n : String) → (t == n) ≡ false → get_in db n loaded.dbs ≡ get_in db n s.dbs
    unfolding set_min_next_rowid
    stored_other n h =
        let m = put_schema x db t schema s in
        let store = insert_rows x rows (unwrap_or (get_in db t m.dbs) []) in
        rw loaded-rebuilt.dbs (
          ground (
            arith,
            get_in-put_in db db t n store m.dbs,
            ap (get_in db n) (dbs-put_schema db t schema s),
            h,
          ))

    counted : max_rowid x rows < counter db t loaded
    unfolding set_min_next_rowid
    counted =
        let m = restore_rows x db t rows (put_schema x db t schema s) in
        let n = max (unwrap_or (get_in db t m.rowid_generators) 1) (max_rowid x rows + 1) in
        rw loaded-rebuilt.rowid_generators (
          ground
            (arith, get_in-put_in db db t t n m.rowid_generators, nat_beq_iff db db, eq_iff t t))

    -- A table that is loaded from a snapshot where there was none has exactly the rows of the
    -- file, if the file has no row id twice.
    pub row_at-load_table :
        (r : RowId)
        → Distinct rows
        → get_in db t s.dbs ≡ none
        → row_at db t r loaded ≡ lookup r rows
    row_at-load_table r d e =
        ground (arith, stored e, lookup-insert_rows rows [] r d, lookup-nil {V = Row} r)

    -- After a table is loaded from a snapshot where there was none every row id of the table is
    -- below its counter, if the file has no row id twice.
    pub load_table-BelowCounter :
        Distinct rows → get_in db t s.dbs ≡ none → BelowCounter db t loaded
    load_table-BelowCounter d e r row h =
        ground (arith, row_at-load_table r d e, max_rowid-lookup rows r row, counted, h)
