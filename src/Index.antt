-- ===== src/Index.antt =====
-- src/index.rs: the secondary indexes, kept in step with the rows.
pub mod Ids
pub mod Mirror
pub mod Named
pub mod Range
use Prim.Native.String.{◌++◌}
use skvs.Prelude.{
  ℕ, String, Bool, true, false, not, Option, none, some, List, [], ◌∷◌, first, any, keep, unwrap_or,
  ◌==◌, nat_eq, string_eq, if◌then◌else◌,
}
use skvs.Prelude.{◌++◌ as concat}
use skvs.Prelude.Map.{Map, lookup}
use skvs.Externs.{Externs}
use skvs.Text.{i64_to_string}
use skvs.Value.{Value, Row, RowId, null, integer, real, text, blob}
use skvs.Schema.{IndexDef, TableSchema}
use skvs.BTree.{IndexStore, Bound, tree_get, tree_put, tree_remove, tree_range, crosses}
use skvs.Error.{SkvsError, Result, ok, err}
use skvs.State.{
  KvsState, Store, get_schema, get_table_store, get_or_create_index_store, set_index_store,
}

pub data IndexOp : Type 0 where
  insert : IndexOp
  delete : IndexOp
  update : Row → IndexOp

unfoldable pub index_value : IndexDef → Row → Option Value
index_value idx row = elim (first idx.columns) [ none ↦ none | some col ↦ lookup col row ]

abbrev pub contains_id : RowId → List RowId → Bool
contains_id r ids = any (λ q. q == r) ids

-- `if !ids.contains(&rowid) { ids.push(rowid) }`
abbrev pub push_id : RowId → List RowId → List RowId
push_id r ids = if contains_id r ids then ids else concat ids (r ∷ [])

module _ (x : Externs) where
  -- Used by the hash join of a SELECT.
  unfoldable pub value_to_key_string : Value → String
  value_to_key_string null = "n:"
  value_to_key_string (integer i) = "i:" ++ i64_to_string i
  value_to_key_string (real f) = "f:" ++ x.f64_to_string f
  value_to_key_string (text s) = "t:" ++ s
  value_to_key_string (blob b) = "b:" ++ x.hex_encode b

  -- The two changes to an index's map.
  unfoldable pub add_id : Value → RowId → IndexStore → IndexStore
  add_id v r m = tree_put x v (push_id r (unwrap_or (tree_get x v m) [])) m

  abbrev pub put_or_remove : Value → List RowId → IndexStore → IndexStore
  put_or_remove v [] m = tree_remove x v m
  put_or_remove v (r ∷ rs) m = tree_put x v (r ∷ rs) m

  unfoldable pub remove_id : Value → RowId → IndexStore → IndexStore
  remove_id v r m = elim (tree_get x v m) [
    | none ↦ m
    | some ids ↦ put_or_remove v (keep (λ q. not (q == r)) ids) m
  ]

  unfoldable pub add_row : IndexDef → Row → RowId → IndexStore → IndexStore
  add_row idx row r m = elim (index_value idx row) [ none ↦ m | some v ↦ add_id v r m ]

  unfoldable pub remove_row : IndexDef → Row → RowId → IndexStore → IndexStore
  remove_row idx row r m = elim (index_value idx row) [ none ↦ m | some v ↦ remove_id v r m ]

  abbrev on_index : (IndexStore → IndexStore) → ℕ → String → IndexDef → KvsState → KvsState
  on_index f db table idx s =
      set_index_store db table idx.name (f (get_or_create_index_store db table idx.name s)) s

  unfoldable pub add_to_index : ℕ → String → IndexDef → Row → RowId → KvsState → KvsState
  add_to_index db table idx row r = on_index (add_row idx row r) db table idx

  unfoldable pub remove_from_index : ℕ → String → IndexDef → Row → RowId → KvsState → KvsState
  remove_from_index db table idx row r = on_index (remove_row idx row r) db table idx

  -- The map that `rebuild_index` fills from the rows; here the ids are pushed without a test.
  abbrev pub push_row : IndexDef → Row → RowId → IndexStore → IndexStore
  push_row idx row r m = elim (index_value idx row) [
    | none ↦ m
    | some v ↦ tree_put x v (concat (unwrap_or (tree_get x v m) []) (r ∷ [])) m
  ]

  unfoldable pub build_index : IndexDef → Store → IndexStore → IndexStore
  build_index idx [] m = m
  build_index idx ((r, row) ∷ rows) m = build_index idx rows (push_row idx row r m)

  unfoldable pub rebuild_index : ℕ → String → IndexDef → KvsState → KvsState
  rebuild_index db table idx s = elim (get_table_store db table s) [
    | none ↦ s
    | some rows ↦ set_index_store db table idx.name (build_index idx rows []) s
  ]

  unfoldable pub update_index : ℕ → String → Row → RowId → IndexOp → IndexDef → KvsState → KvsState
  update_index db table row r insert idx s = add_to_index db table idx row r s
  update_index db table row r delete idx s = remove_from_index db table idx row r s
  update_index db table row r (update old) idx s =
      add_to_index db table idx row r (remove_from_index db table idx old r s)

  unfoldable pub update_each :
      ℕ → String → Row → RowId → IndexOp → List IndexDef → KvsState → KvsState
  update_each db table row r op [] s = s
  update_each db table row r op (idx ∷ rest) s =
      update_each db table row r op rest (update_index db table row r op idx s)

  -- It never fails: the `Ok(())` of the source is left out.
  unfoldable pub update_indexes : ℕ → String → Row → RowId → IndexOp → KvsState → KvsState
  update_indexes db table row r op s = elim (get_schema db table s) [
    | none ↦ s
    | some schema ↦ update_each db table row r op schema.indices s
  ]

  unfoldable pub lookup_index : ℕ → String → String → Value → KvsState → List RowId
  lookup_index db table index v s =
      unwrap_or (tree_get x v (get_or_create_index_store db table index s)) []

  -- Ends that cross are a panic.
  unfoldable pub range_lookup : ℕ → String → String → Bound → Bound → KvsState → Result (List RowId)
  range_lookup db table index lower upper s =
      if crosses x lower upper
      then err SkvsError.crash
      else ok (tree_range x lower upper (get_or_create_index_store db table index s))
