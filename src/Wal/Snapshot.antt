-- ===== src/Wal/Snapshot.antt =====
-- src/wal.rs: `save_sql_snapshot` and `load_sql_snapshot`. A file holds what bincode wrote, or it
-- is not there, cannot be read, or does not decode.
pub mod Restored
pub mod Restart
use skvs.Prelude.{
  ℕ, ◌+◌, String, Bool, true, false, if◌then◌else◌, Option, none, some, List, [], ◌∷◌, max,
  unwrap_or, nat_eq, string_eq, bytes_eq,
}
use skvs.Prelude.Map.{Map, lookup, insert}
use skvs.Prelude.Nested.{get_in, put_in}
use skvs.Externs.{Externs}
use skvs.Value.{Value}
use skvs.Schema.{TableSchema, IndexDef, TriggerDef}
use skvs.Fts.{FtsVirtualTable, new_table, add_document}
use skvs.Index.{rebuild_index}
use skvs.State.{KvsState, Store, Bytes, get_table_store, register_fts_table, set_min_next_rowid}

abbrev pub TableDump : Type 0
TableDump = String × Option TableSchema × Store

pub data Saved {ℓ} (A : Type ℓ) : Type ℓ where
  missing unreadable corrupt : Saved A
  saved : A → Saved A

-- The files of one database, with the copy of a `tables.bin` that did not decode.
pub record Files : Type 0 where
  pub tables : Saved (List TableDump)
  pub raw : Saved (Map String (Map Bytes Bytes))
  pub views : Saved (Map String String)
  pub triggers : Saved (Map String (List TriggerDef))
  pub tables_bak : Saved (List TableDump)

pub data SnapshotFile : Type 0 where
  tables_bin raw_bin views_bin triggers_bin : SnapshotFile

-- What the file system does: whether the directory of a database can be made, whether a file is
-- serialized, written beside the old one and renamed over it, and whether a corrupt file can be
-- renamed.
pub record SnapshotIo : Type 0 where
  pub makes_dir : ℕ → Bool
  pub writes : ℕ → SnapshotFile → Bool
  pub renames : ℕ → Bool

abbrev pub dump_tables : Option (Map String TableSchema) → Map String Store → List TableDump
dump_tables schemas [] = []
dump_tables schemas ((name, rows) ∷ rest) =
    (name, elim schemas [ none ↦ none | some m ↦ lookup name m ], rows) ∷ dump_tables schemas rest

-- `write_snapshot_file`: on an error the old file stays.
abbrev write_snapshot_file {ℓ} : {A : Type ℓ} → Bool → A → Saved A → Saved A
write_snapshot_file true a old = saved a
write_snapshot_file false a old = old

-- A database without an entry in one of the maps leaves that file as it is.
abbrev write_some {ℓ} : {A : Type ℓ} → Bool → Option A → Saved A → Saved A
write_some can none old = old
write_some can (some a) old = write_snapshot_file can a old

module _ (io : SnapshotIo) where
  unfoldable pub save_database : ℕ → Map String Store → Files → KvsState → Files
  save_database db tables old s = record {
    tables =
        write_snapshot_file (io.writes db tables_bin) (dump_tables (lookup db s.schemas) tables)
          old.tables;
    raw = write_some (io.writes db raw_bin) (lookup db s.raw_stores) old.raw;
    views = write_some (io.writes db views_bin) (lookup db s.views) old.views;
    triggers = write_some (io.writes db triggers_bin) (lookup db s.triggers) old.triggers;
    tables_bak = old.tables_bak;
  }

  abbrev pub no_files : Files
  no_files = record {
    tables = missing;
    raw = missing;
    views = missing;
    triggers = missing;
    tables_bak = missing;
  }

  abbrev save_each : Map ℕ (Map String Store) → Map ℕ Files → KvsState → Map ℕ Files
  save_each [] disk s = disk
  save_each ((db, tables) ∷ rest) disk s =
      save_each rest
        (if io.makes_dir db
          then insert db (save_database db tables (unwrap_or (lookup db disk) no_files) s) disk
          else disk)
        s

  unfoldable pub save_sql_snapshot : Map ℕ Files → KvsState → Map ℕ Files
  unfolding save_database
  save_sql_snapshot disk s = save_each s.dbs disk s

  -- A `tables.bin` that does not decode is put aside.
  abbrev quarantine : ℕ → Files → Files
  quarantine db f = elim f.tables [
    | corrupt ↦ if io.renames db then record f { tables = missing; tables_bak = corrupt } else f
    | _ ↦ f
  ]

  abbrev quarantine_each : Map ℕ (Map String Store) → Map ℕ Files → Map ℕ Files
  quarantine_each [] disk = disk
  quarantine_each ((db, tables) ∷ rest) disk =
      quarantine_each rest
        (elim (lookup db disk) [ none ↦ disk | some f ↦ insert db (quarantine db f) disk ])

module _ (x : Externs) where
  abbrev pub put_schema : ℕ → String → Option TableSchema → KvsState → KvsState
  put_schema db name none s = s
  put_schema db name (some schema) s = record s { schemas = put_in db name schema s.schemas }

  abbrev pub max_rowid : Store → ℕ
  max_rowid [] = 0
  max_rowid ((r, row) ∷ rest) = max r (max_rowid rest)

  abbrev pub insert_rows : Store → Store → Store
  insert_rows [] store = store
  insert_rows ((r, row) ∷ rest) store = insert_rows rest (insert r row store)

  abbrev pub rebuild_each : ℕ → String → List IndexDef → KvsState → KvsState
  rebuild_each db name [] s = s
  rebuild_each db name (i ∷ is) s = rebuild_each db name is (rebuild_index x db name i s)

  abbrev pub rebuild_all : ℕ → String → KvsState → KvsState
  rebuild_all db name s = elim (get_in db name s.schemas) [
    | none ↦ s
    | some schema ↦ rebuild_each db name schema.indices s
  ]

  abbrev pub restore_rows : ℕ → String → Store → KvsState → KvsState
  restore_rows db name rows s = record s {
    dbs = put_in db name (insert_rows rows (unwrap_or (get_in db name s.dbs) [])) s.dbs;
  }

  unfoldable pub load_table : ℕ → TableDump → KvsState → KvsState
  load_table db (name, schema, rows) s = rebuild_all db name (
      set_min_next_rowid db name (max_rowid rows + 1)
        (restore_rows db name rows (put_schema db name schema s)))

  abbrev pub load_tables : ℕ → List TableDump → KvsState → KvsState
  load_tables db [] s = s
  load_tables db (t ∷ ts) s = load_tables db ts (load_table db t s)

  abbrev pub load_entries : ℕ → String → Map Bytes Bytes → KvsState → KvsState
  load_entries db table [] s = record s {
    raw_stores = put_in db table (unwrap_or (get_in db table s.raw_stores) []) s.raw_stores;
  }
  load_entries db table ((k, v) ∷ rest) s = load_entries db table rest (record s {
    raw_stores =
        put_in db table (insert k v (unwrap_or (get_in db table s.raw_stores) [])) s.raw_stores;
  })

  abbrev pub load_raw : ℕ → Map String (Map Bytes Bytes) → KvsState → KvsState
  load_raw db [] s = s
  load_raw db ((table, entries) ∷ rest) s = load_raw db rest (load_entries db table entries s)

  abbrev pub load_views : ℕ → Map String String → KvsState → KvsState
  load_views db [] s = s
  load_views db ((name, query) ∷ rest) s =
      load_views db rest (record s { views = put_in db name query s.views })

  abbrev pub load_triggers : ℕ → Map String (List TriggerDef) → KvsState → KvsState
  load_triggers db [] s = s
  load_triggers db ((table, defs) ∷ rest) s =
      load_triggers db rest (record s { triggers = put_in db table defs s.triggers })

  -- A file that is there, can be read and decodes.
  abbrev pub if_file {ℓ} : {A : Type ℓ} → Saved A → (A → KvsState → KvsState) → KvsState → KvsState
  if_file (saved a) f s = f a s
  if_file _ f s = s

  -- The full-text index of a table, from the texts of its content column.
  abbrev index_rows : String → Store → FtsVirtualTable → FtsVirtualTable
  index_rows col [] t = t
  index_rows col ((r, row) ∷ rest) t = index_rows col rest (elim (lookup col row) [
    | some (Value.text content) ↦ record t { index = add_document x r content t.index }
    | _ ↦ t
  ])

  abbrev pub rebuild_fts : ℕ → String → String → KvsState → KvsState
  rebuild_fts db name col s = elim (get_table_store db name s) [
    | none ↦ register_fts_table db name (new_table name col) s
    | some rows ↦ register_fts_table db name (index_rows col rows (new_table name col)) s
  ]

  abbrev pub content_column : Option TableSchema → Option String
  content_column none = none
  content_column (some schema) = schema.fts5_content_column

  abbrev pub rebuild_fts_tables : ℕ → List TableDump → KvsState → KvsState
  rebuild_fts_tables db [] s = s
  rebuild_fts_tables db ((name, schema, rows) ∷ rest) s =
      rebuild_fts_tables db rest
        (elim (content_column schema) [ none ↦ s | some col ↦ rebuild_fts db name col s ])

  abbrev pub load_rest : ℕ → Files → List TableDump → KvsState → KvsState
  load_rest db f dump s = rebuild_fts_tables db dump (
      if_file f.triggers (load_triggers db)
        (if_file f.views (load_views db) (if_file f.raw (load_raw db) s)))

  -- Without a `tables.bin` the other files of the database are not read.
  unfoldable pub load_database : ℕ → Files → KvsState → KvsState
  unfolding load_table
  load_database db f s = if_file f.tables (λ dump s. load_rest db f dump (load_tables db dump s)) s

  abbrev load_each : Map ℕ (Map String Store) → Map ℕ Files → KvsState → KvsState
  load_each [] disk s = s
  load_each ((db, tables) ∷ rest) disk s =
      load_each rest disk (elim (lookup db disk) [ none ↦ s | some f ↦ load_database db f s ])

  -- What is left on the disk, and the state.
  unfoldable pub load_sql_snapshot : SnapshotIo → Map ℕ Files → KvsState → Map ℕ Files × KvsState
  unfolding load_database
  load_sql_snapshot io disk s = (quarantine_each io s.dbs disk, load_each s.dbs disk s)
