-- ===== src/Wal/Snapshot/Restart.antt =====
-- src/wal.rs: a database that is saved and loaded into an empty one.
use package.text.Mathlib.TextEquality.{eq_iff}
use skvs.Prelude.{
  ℕ, String, Bool, true, not, ◌&&◌, ◌≡◌, refl, ap, ◌∙◌, subst, inl, inr, Option, none, some, List,
  [], ◌∷◌, nat_eq, string_eq, ◌==◌, Option-cases, Bool-cases, arith,
}
use skvs.Prelude.Map.{Map, lookup, contains_key, lookup-nil}
use skvs.Prelude.Nested.{get_in}
use skvs.Externs.{Externs}
use skvs.Value.{Row, RowId}
use skvs.Schema.{TableSchema, TriggerDef}
use skvs.State.{KvsState, Store, Bytes, register_fts_table}
use skvs.State.Rows.{row_at}
use skvs.Sql.Dml.Pending.{Distinct}
use skvs.Wal.Snapshot.{
  Files, Saved, saved, missing, unreadable, corrupt, SnapshotIo, tables_bin, TableDump, dump_tables,
  save_database, insert_rows, load_tables, load_entries, load_raw, load_views, load_triggers,
  if_file, rebuild_fts, rebuild_fts_tables, content_column, load_rest, load_database,
}
use skvs.Wal.Snapshot.Restored.{lookup-insert_rows, loaded, stored, stored_other}

-- No table name twice.
abbrev pub apart_names : Map String Store → Bool
apart_names [] = true
apart_names ((n, rows) ∷ rest) = not (contains_key n rest) && apart_names rest

abbrev schema_in : Option (Map String TableSchema) → String → Option TableSchema
schema_in schemas n = elim schemas [ none ↦ none | some m ↦ lookup n m ]

module _ (x : Externs) (db : ℕ) where
  get_in-load_tables_other :
      (schemas : Option (Map String TableSchema)) (tables : Map String Store) (t : String)
      (s : KvsState)
      → lookup t tables ≡ none
      → get_in db t (load_tables x db (dump_tables schemas tables) s).dbs ≡ get_in db t s.dbs
  unfolding lookup
  get_in-load_tables_other schemas [] t s h = refl
  get_in-load_tables_other schemas ((n, rows) ∷ rest) t s h =
      get_in-load_tables_other schemas rest t _ (ground (arith, h))
      ∙ stored_other x db n _ rows s t (ground (arith, h))

  get_in-load_tables :
      (schemas : Option (Map String TableSchema)) (tables : Map String Store) (t : String)
      (rows : Store) (s : KvsState)
      → apart_names tables ≡ true
      → lookup t tables ≡ some rows
      → get_in db t s.dbs ≡ none
      → get_in db t (load_tables x db (dump_tables schemas tables) s).dbs
        ≡ some (insert_rows x rows [])
  unfolding lookup
  get_in-load_tables schemas [] t rows s a h e = ground (arith, h)
  get_in-load_tables schemas ((n, ns) ∷ rest) t rows s a h e = elim (Bool-cases (n == t)) [
    | inl k ↦
        let n_is_t : n ≡ t = (eq_iff n t).0 k in
        let ns_are : ns ≡ rows = ground (arith, h, k) in
        let schema = schema_in schemas n in
        get_in-load_tables_other schemas rest t _
          (subst (λ m. lookup m rest ≡ none) n_is_t (ground (arith, a)))
        ∙ subst
            (λ m.
              get_in db m s.dbs ≡ none
              → get_in db m (loaded x db n schema ns s).dbs ≡ some (insert_rows x ns []))
            n_is_t (stored x db n schema ns s) e
        ∙ ap (λ l. some (insert_rows x l [])) ns_are
    | inr k ↦
        get_in-load_tables schemas rest t rows _ (ground (arith, a)) (ground (arith, h, k))
          (stored_other x db n _ ns s t k ∙ e)
  ]

  dbs-load_entries :
      (t : String) (entries : Map Bytes Bytes) (s : KvsState)
      → (load_entries x db t entries s).dbs ≡ s.dbs
  dbs-load_entries t [] s = refl
  dbs-load_entries t ((k, v) ∷ rest) s = dbs-load_entries t rest _

  dbs-load_raw :
      (raw : Map String (Map Bytes Bytes)) (s : KvsState) → (load_raw x db raw s).dbs ≡ s.dbs
  dbs-load_raw [] s = refl
  dbs-load_raw ((t, entries) ∷ rest) s =
      dbs-load_raw rest (load_entries x db t entries s) ∙ dbs-load_entries t entries s

  dbs-load_views :
      (views : Map String String) (s : KvsState) → (load_views x db views s).dbs ≡ s.dbs
  dbs-load_views [] s = refl
  dbs-load_views ((n, q) ∷ rest) s = dbs-load_views rest _

  dbs-load_triggers :
      (triggers : Map String (List TriggerDef)) (s : KvsState)
      → (load_triggers x db triggers s).dbs ≡ s.dbs
  dbs-load_triggers [] s = refl
  dbs-load_triggers ((t, defs) ∷ rest) s = dbs-load_triggers rest _

  dbs-if_file {ℓ} :
      {A : Type ℓ} (file : Saved A) (f : A → KvsState → KvsState) (s : KvsState)
      → ((a : A) (s : KvsState) → (f a s).dbs ≡ s.dbs)
      → (if_file x file f s).dbs ≡ s.dbs
  dbs-if_file missing f s h = refl
  dbs-if_file unreadable f s h = refl
  dbs-if_file corrupt f s h = refl
  dbs-if_file (saved a) f s h = h a s

  dbs-rebuild_fts : (t col : String) (s : KvsState) → (rebuild_fts x db t col s).dbs ≡ s.dbs
  unfolding register_fts_table
  dbs-rebuild_fts t col s = ground arith

  dbs-rebuild_fts_tables :
      (dump : List TableDump) (s : KvsState) → (rebuild_fts_tables x db dump s).dbs ≡ s.dbs
  dbs-rebuild_fts_tables [] s = refl
  dbs-rebuild_fts_tables ((t, schema, rows) ∷ rest) s =
      elim (Option-cases (content_column x schema)) [
        | inl e ↦ rw (e, rebuild_fts_tables) (dbs-rebuild_fts_tables rest s)
        | inr (col, e) ↦
            rw (e, rebuild_fts_tables)
              (dbs-rebuild_fts_tables rest (rebuild_fts x db t col s) ∙ dbs-rebuild_fts t col s)
      ]

  dbs-load_rest :
      (f : Files) (dump : List TableDump) (s : KvsState) → (load_rest x db f dump s).dbs ≡ s.dbs
  dbs-load_rest f dump s =
      let s₁ = if_file x f.raw (load_raw x db) s in
      let s₂ = if_file x f.views (load_views x db) s₁ in
      let s₃ = if_file x f.triggers (load_triggers x db) s₂ in
      dbs-rebuild_fts_tables dump s₃
      ∙ dbs-if_file f.triggers (load_triggers x db) s₂ dbs-load_triggers
      ∙ dbs-if_file f.views (load_views x db) s₁ dbs-load_views
      ∙ dbs-if_file f.raw (load_raw x db) s dbs-load_raw

  -- The rows of each table have different ids.
  abbrev pub DistinctIds : Map String Store → Type 0
  DistinctIds tables = (t : String) (rows : Store) → lookup t tables ≡ some rows → Distinct rows

  -- A state in which the database has no table yet.
  abbrev pub NoTables : KvsState → Type 0
  NoTables s = (t : String) → get_in db t s.dbs ≡ none

  module _ (io : SnapshotIo) (tables : Map String Store) (old : Files) (s fresh : KvsState)
      (opened : lookup db s.dbs ≡ some tables) (apart : apart_names tables ≡ true)
      (distinct : DistinctIds tables) (empty : NoTables fresh)
      (writes : io.writes db tables_bin ≡ true) where
    abbrev restarted : KvsState
    restarted = load_database x db (save_database io db tables old s) fresh

    dbs-restarted :
        restarted.dbs ≡ (load_tables x db (dump_tables (lookup db s.schemas) tables) fresh).dbs
    unfolding load_database save_database
    dbs-restarted =
        let f = save_database io db tables old s in
        let dump = dump_tables (lookup db s.schemas) tables in
        rw (writes, load_database) (dbs-load_rest f dump (load_tables x db dump fresh))

    -- A database that is saved and then loaded into a state where it has no table has in every
    -- table the rows from before, whatever else the files hold, if tables.bin can be written, no
    -- table name is there twice, and no row id twice in a table.
    pub row_at-load_database :
        (t : String) (r : RowId)
        → row_at db t r (load_database x db (save_database io db tables old s) fresh)
          ≡ row_at db t r s
    unfolding get_in
    row_at-load_database t r = elim (Option-cases (lookup t tables)) [
      | inl e ↦
          let k : get_in db t restarted.dbs ≡ none =
            ap (get_in db t) dbs-restarted
            ∙ get_in-load_tables_other (lookup db s.schemas) tables t fresh e
            ∙ empty t in
          ground (arith, k, opened, e)
      | inr (rows, e) ↦
          let k : get_in db t restarted.dbs ≡ some (insert_rows x rows []) =
            ap (get_in db t) dbs-restarted
            ∙ get_in-load_tables (lookup db s.schemas) tables t rows fresh apart e (empty t) in
          ground (
            arith,
            k,
            opened,
            e,
            lookup-insert_rows x rows [] r (distinct t rows e),
            lookup-nil {V = Row} r,
          )
    ]
