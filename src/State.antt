-- ===== src/State.antt =====
-- src/state.rs: the state that every part works on, and its accessors. The concurrent maps are
-- read one call at a time. The key "table\0index" of an index is the pair of its two names.
pub mod Raw
pub mod Rows
use skvs.Prelude.{
  ℕ, ◌+◌, String, Bool, true, false, Option, none, some, List, [], ◌∷◌, ◌++◌, unwrap_or, max,
  nat_eq, string_eq, name_eq, path_eq, bytes_eq,
}
use skvs.Prelude.Map.{Map, lookup, insert, remove}
use skvs.Prelude.Nested.{get_in, put_in, del_in}
use skvs.Error.{SkvsError, Result, ok, err}
use skvs.Value.{Row, RowId}
use skvs.Schema.{TableSchema, TriggerDef}
use skvs.BTree.{IndexStore}
use skvs.Fts.{FtsVirtualTable}

abbrev pub Store : Type 0
Store = Map RowId Row

abbrev pub Bytes : Type 0
Bytes = List ℕ

-- A file of the overflow directory: the directories that it is in and its name, with dots and
-- links resolved.
abbrev pub FilePath : Type 0
FilePath = ℕ × String × String

-- The file system under the overflow directory: which files it writes and removes, and the file
-- that the path of a database, a table and a name leads to. Two tables can lead to one file, as
-- "t" and "./t" do.
pub record OverflowIo : Type 0 where
  pub writes : FilePath → Bool
  -- what a write that fails puts into the file, if it comes to open it
  pub partly : FilePath → Bytes → Option Bytes
  pub removes : FilePath → Bool
  pub file_at : ℕ → String → String → FilePath

-- src/transaction.rs: what undoes a write.
pub data UndoOp : Type 0 where
  insert_op : String → RowId → UndoOp
  delete_op : String → RowId → Row → UndoOp
  update_op : String → RowId → Row → UndoOp

pub record TxnEntry : Type 0 where
  pub db_id : ℕ
  pub journal : List UndoOp

pub record TxnManager : Type 0 where
  pub next_id : ℕ
  pub active : Map ℕ TxnEntry

pub record KvsState : Type 0 where
  pub dbs : Map ℕ (Map String Store)
  pub schemas : Map ℕ (Map String TableSchema)
  pub rowid_generators : Map ℕ (Map String ℕ)
  pub db_name_to_id : Map String ℕ
  pub raw_stores : Map ℕ (Map String (Map Bytes Bytes))
  pub indexes : Map ℕ (Map (String × String) IndexStore)
  pub triggers : Map ℕ (Map String (List TriggerDef))
  pub views : Map ℕ (Map String String)
  pub fts_tables : Map ℕ (Map String FtsVirtualTable)
  pub txns : TxnManager
  pub max_entries_per_table : ℕ
  -- the files under `overflow_dir`
  pub overflow_files : Map FilePath Bytes

abbrev pub new_txns : TxnManager
new_txns = record { next_id = 1; active = [] }

-- The configured databases, as (id, name), inserted one after the other: of two with one key the
-- last stays.
abbrev pub empty_onto {ℓ} : {V : Type ℓ} → List (ℕ × String) → Map ℕ (List V) → Map ℕ (List V)
empty_onto [] m = m
empty_onto ((id, name) ∷ ds) m = empty_onto ds (insert id [] m)

abbrev pub names_onto : List (ℕ × String) → Map String ℕ → Map String ℕ
names_onto [] m = m
names_onto ((id, name) ∷ ds) m = names_onto ds (insert name id m)

abbrev pub empty_each {ℓ} : {V : Type ℓ} → List (ℕ × String) → Map ℕ (List V)
empty_each ds = empty_onto ds []

abbrev pub names_of : List (ℕ × String) → Map String ℕ
names_of ds = names_onto ds []

unfoldable pub new_with_config : List (ℕ × String) → ℕ → KvsState
new_with_config databases max_entries = record {
  dbs = empty_each databases;
  schemas = empty_each databases;
  rowid_generators = empty_each databases;
  db_name_to_id = names_of databases;
  raw_stores = empty_each databases;
  indexes = empty_each databases;
  triggers = empty_each databases;
  views = empty_each databases;
  fts_tables = empty_each databases;
  txns = new_txns;
  max_entries_per_table = max_entries;
  overflow_files = [];
}

unfoldable pub get_db_id : String → KvsState → Option ℕ
get_db_id name s = lookup name s.db_name_to_id

unfoldable pub get_table_store : ℕ → String → KvsState → Option Store
get_table_store db table s = get_in db table s.dbs

unfoldable pub get_schema : ℕ → String → KvsState → Option TableSchema
get_schema db table s = get_in db table s.schemas

-- `store.insert(rowid, row)` and `store.remove(rowid)` on the table of that name.
unfoldable pub store_insert : ℕ → String → RowId → Row → KvsState → KvsState
store_insert db table r row s = elim (get_in db table s.dbs) [
  | none ↦ s
  | some store ↦ record s { dbs = put_in db table (insert r row store) s.dbs }
]

unfoldable pub store_remove : ℕ → String → RowId → KvsState → KvsState
store_remove db table r s = elim (get_in db table s.dbs) [
  | none ↦ s
  | some store ↦ record s { dbs = put_in db table (remove r store) s.dbs }
]

-- `fetch_add`: the counter starts at 1. It is a `u64` that no table counts to the end of.
unfoldable pub get_next_rowid : ℕ → String → KvsState → ℕ × KvsState
get_next_rowid db table s =
    let n : ℕ = unwrap_or (get_in db table s.rowid_generators) 1 in
    (n, record s { rowid_generators = put_in db table (n + 1) s.rowid_generators })

unfoldable pub set_min_next_rowid : ℕ → String → ℕ → KvsState → KvsState
set_min_next_rowid db table min_next s =
    let n : ℕ = unwrap_or (get_in db table s.rowid_generators) 1 in
    record s { rowid_generators = put_in db table (max n min_next) s.rowid_generators }

-- An index that is not there yet reads as empty; the empty map that the read leaves behind is not
-- seen by any other operation.
unfoldable pub get_or_create_index_store : ℕ → String → String → KvsState → IndexStore
get_or_create_index_store db table index s = unwrap_or (get_in db (table, index) s.indexes) []

unfoldable pub set_index_store : ℕ → String → String → IndexStore → KvsState → KvsState
set_index_store db table index m s = record s { indexes = put_in db (table, index) m s.indexes }

unfoldable pub drop_index_store : ℕ → String → String → KvsState → KvsState
drop_index_store db table index s = record s { indexes = del_in db (table, index) s.indexes }

unfoldable pub get_triggers : ℕ → String → KvsState → List TriggerDef
get_triggers db table s = unwrap_or (get_in db table s.triggers) []

unfoldable pub add_trigger : ℕ → String → TriggerDef → KvsState → KvsState
add_trigger db table t s = record s {
  triggers = put_in db table (unwrap_or (get_in db table s.triggers) [] ++ (t ∷ [])) s.triggers;
}

unfoldable pub add_view : ℕ → String → String → KvsState → KvsState
add_view db name query s = record s { views = put_in db name query s.views }

unfoldable pub remove_view : ℕ → String → KvsState → Result (Unit {0}) × KvsState
remove_view db name s = elim (lookup db s.views) [
  | none ↦ (err SkvsError.schema, s)
  | some _ ↦ (ok tt, record s { views = del_in db name s.views })
]

unfoldable pub get_view_definition : ℕ → String → KvsState → Option String
get_view_definition db name s = get_in db name s.views

unfoldable pub register_fts_table : ℕ → String → FtsVirtualTable → KvsState → KvsState
register_fts_table db name t s = record s { fts_tables = put_in db name t s.fts_tables }

unfoldable pub get_fts_table : ℕ → String → KvsState → Option FtsVirtualTable
get_fts_table db name s = get_in db name s.fts_tables
