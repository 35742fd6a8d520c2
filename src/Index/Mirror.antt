-- ===== src/Index/Mirror.antt =====
-- src/index.rs: an index lists a row under a value exactly when the row has that value.
use skvs.Prelude.{
  Bool, true, false, not, ◌&&◌, ◌||◌, ◌≡◌, inl, inr, Option, none, some, nat_eq, string_eq,
  nat_beq_iff, ◌==◌, Option-cases, arith,
}
use skvs.Prelude.Map.{lookup, insert, remove, lookup-insert, lookup-remove}
use skvs.Externs.{Externs}
use skvs.Value.{Value, Row, RowId}
use skvs.Value.Order.{is_plain}
use skvs.Schema.{IndexDef}
use skvs.State.{Store}
use skvs.BTree.{IndexStore}
use skvs.BTree.Ordered.{Sorted, tree_put-Sorted}
use skvs.Index.{index_value, contains_id, push_id, add_id, add_row, remove_row}
use skvs.Index.Ids.{same, ids_at, ids_at-add_id, ids_at-remove_id, remove_id-Sorted}

module _ (x : Externs) where
  -- Whether a row, if there is one, has the value in the indexed column.
  abbrev pub carries : IndexDef → Value → Option Row → Bool
  carries idx w none = false
  carries idx w (some row) = elim (index_value idx row) [ none ↦ false | some v ↦ same x v w ]

  -- The indexed column of the row does not hold a real.
  abbrev pub PlainRow : IndexDef → Row → Type 0
  PlainRow idx row = (v : Value) → index_value idx row ≡ some v → is_plain v ≡ true

  -- The index lists under each value exactly the rows of the table that have it.
  pub record Mirrors (idx : IndexDef) (store : Store) (m : IndexStore) : Type 0 where
    pub sorted : Sorted x m
    pub listed :
        (w : Value) (q : RowId)
        → is_plain w ≡ true
        → contains_id q (ids_at x w m) ≡ carries idx w (lookup q store)

  ids_at-add_row :
      (idx : IndexDef) (row : Row) (w : Value) (r q : RowId) (m : IndexStore)
      → is_plain w ≡ true
      → PlainRow idx row
      → Sorted x m
      → contains_id q (ids_at x w (add_row x idx row r m))
        ≡ (contains_id q (ids_at x w m) || (carries idx w (some row) && r == q))
  unfolding add_row
  ids_at-add_row idx row w r q m p k s = elim (Option-cases (index_value idx row)) [
    | inl e ↦ ground arith
    | inr (v, e) ↦ ground (arith, ids_at-add_id x w v r q m p (k v e) s)
  ]

  ids_at-remove_row :
      (idx : IndexDef) (row : Row) (w : Value) (r q : RowId) (m : IndexStore)
      → is_plain w ≡ true
      → PlainRow idx row
      → Sorted x m
      → contains_id q (ids_at x w (remove_row x idx row r m))
        ≡ (contains_id q (ids_at x w m) && not (carries idx w (some row) && r == q))
  unfolding remove_row
  ids_at-remove_row idx row w r q m p k s = elim (Option-cases (index_value idx row)) [
    | inl e ↦ ground arith
    | inr (v, e) ↦ ground (arith, ids_at-remove_id x w v r q m p (k v e) s)
  ]

  add_row-Sorted :
      (idx : IndexDef) (row : Row) (r : RowId) (m : IndexStore)
      → PlainRow idx row
      → Sorted x m
      → Sorted x (add_row x idx row r m)
  unfolding add_row add_id
  add_row-Sorted idx row r m k s = elim (Option-cases (index_value idx row)) [
    | inl e ↦ rw (e, add_row) s
    | inr (v, e) ↦ rw (e, add_row) (tree_put-Sorted x v (push_id r (ids_at x v m)) m (k v e) s)
  ]

  remove_row-Sorted :
      (idx : IndexDef) (row : Row) (r : RowId) (m : IndexStore)
      → PlainRow idx row
      → Sorted x m
      → Sorted x (remove_row x idx row r m)
  unfolding remove_row
  remove_row-Sorted idx row r m k s = elim (Option-cases (index_value idx row)) [
    | inl e ↦ rw (e, remove_row) s
    | inr (v, e) ↦ rw (e, remove_row) (remove_id-Sorted x v r m (k v e) s)
  ]

  -- A row inserted under a free id and added to the index keeps the index a mirror of the table,
  -- if the row has no real in the indexed column.
  pub add_row-Mirrors :
      (idx : IndexDef) (row : Row) (r : RowId) (store : Store) (m : IndexStore)
      → Mirrors idx store m
      → PlainRow idx row
      → lookup r store ≡ none
      → Mirrors idx (insert r row store) (add_row x idx row r m)
  add_row-Mirrors idx row r store m h k e = record {
    sorted = add_row-Sorted idx row r m k h.sorted;
    listed = λ w q p. ground (
      arith,
      ids_at-add_row idx row w r q m p k h.sorted,
      h.listed w q p,
      lookup-insert r q row store,
      nat_beq_iff r q,
    );
  }

  -- A row deleted and taken from the index keeps the index a mirror of the table, if the row has
  -- no real in the indexed column.
  pub remove_row-Mirrors :
      (idx : IndexDef) (row : Row) (r : RowId) (store : Store) (m : IndexStore)
      → Mirrors idx store m
      → PlainRow idx row
      → lookup r store ≡ some row
      → Mirrors idx (remove r store) (remove_row x idx row r m)
  remove_row-Mirrors idx row r store m h k e = record {
    sorted = remove_row-Sorted idx row r m k h.sorted;
    listed = λ w q p. ground (
      arith,
      ids_at-remove_row idx row w r q m p k h.sorted,
      h.listed w q p,
      lookup-remove r q store,
      nat_beq_iff r q,
    );
  }

  -- A row updated, with its old value taken from the index and the new one added, keeps the index
  -- a mirror of the table, if neither row has a real in the indexed column.
  pub update_row-Mirrors :
      (idx : IndexDef) (old new : Row) (r : RowId) (store : Store) (m : IndexStore)
      → Mirrors idx store m
      → PlainRow idx old
      → PlainRow idx new
      → lookup r store ≡ some old
      → Mirrors idx (insert r new store) (add_row x idx new r (remove_row x idx old r m))
  update_row-Mirrors idx old new r store m h k k' e = record {
    sorted = add_row-Sorted idx new r _ k' (remove_row-Sorted idx old r m k h.sorted);
    listed = λ w q p. ground (
      arith,
      ids_at-add_row idx new w r q (remove_row x idx old r m) p k'
          (remove_row-Sorted idx old r m k h.sorted),
      ids_at-remove_row idx old w r q m p k h.sorted,
      h.listed w q p,
      lookup-insert r q new store,
      nat_beq_iff r q,
    );
  }
