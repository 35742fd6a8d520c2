-- ===== src/Sql/Select/Scan/Exact.antt =====
-- src/sql/select.rs: the rows that an index gives for a comparison of a column are those that the
-- WHERE clause lets through.
use skvs.Prelude.{
  ℕ, String, Bool, true, false, ◌≡◌, refl, sym, ap, ◌∙◌, inl, inr, Option, none, some, List, [],
  unwrap_or, nat_eq, string_eq, bytes_eq, ◌==◌, Option-cases, arith,
}
use skvs.Prelude.Map.{lookup}
use skvs.Value.{Value, Row, RowId}
use skvs.Value.Order.{is_plain}
use skvs.Schema.{IndexDef}
use skvs.BTree.{IndexStore, Bound, tree_range, crosses}
use skvs.Error.{Result, ok}
use skvs.State.{KvsState, Store, get_or_create_index_store}
use skvs.Index.{index_value, contains_id, lookup_index, range_lookup}
use skvs.Index.Ids.{ids_at}
use skvs.Index.Mirror.{Mirrors}
use skvs.Index.Range.{contains_id-tree_range, contains_id-tree_range-none, contains_id-ids_at}
use skvs.Expr.Ast.{Expr, BinaryOperator}
use skvs.Expr.Eval.{eval}
use skvs.Sql.Env.{Env}
use skvs.Sql.Where.{matches}
use skvs.Sql.Select.Scan.{
  is_column_ref, constant, simple_equality, simple_range, bounds_of, sides, range_ids, tagged,
  index_on, indexed_ids,
}
use skvs.Sql.Select.Scan.Compares.{
  index_on-single, index_value-single, lookup-tagged, compares, answered, where_clause,
  matches-compares,
}

-- An index answers, with no panic.
abbrev answer : Option (List RowId) → Option (Result (List RowId))
answer none = none
answer (some ids) = some (ok ids)

module _ (x : Env) (db : ℕ) (params : List Value) (s : KvsState) (c : String) (rhs : Expr) where
  -- Each row has a value in the column, and none of them is a real.
  abbrev pub Plain : Store → Type 0
  Plain store =
      (r : RowId) (row : Row)
      → lookup r store ≡ some row
      → (w : Value) × (lookup c row ≡ some w) × (is_plain w ≡ true)

  -- The other side reads no column.
  abbrev pub Constant : Type 0
  Constant = (row : Row) → (eval x.externs (some row) params rhs 0).0 ≡ constant x db params rhs

  -- What the WHERE clause says of a row id, by the table.
  abbrev pub let_through : Store → BinaryOperator → RowId → Bool
  let_through store op r = elim (lookup r store) [
    | none ↦ false
    | some row ↦
        matches x.externs s db (tagged x db params r row) params
          (where_clause x db params s c rhs op) 0
  ]

  module _ (table : String) (idx : IndexDef) (store : Store)
      (column_ref : is_column_ref rhs ≡ false)
      (indexed : index_on x db params s table c ≡ some idx) where
    abbrev index_store : IndexStore
    index_store = get_or_create_index_store db table idx.name s

    -- The ids for each comparison.
    abbrev ids_for : BinaryOperator → Value → Option (List RowId)
    ids_for BinaryOperator.eq v = some (ids_at x.externs v index_store)
    ids_for BinaryOperator.gt v =
        some (tree_range x.externs (Bound.excluded v) Bound.unbounded index_store)
    ids_for BinaryOperator.gt_eq v =
        some (tree_range x.externs (Bound.included v) Bound.unbounded index_store)
    ids_for BinaryOperator.lt v =
        some (tree_range x.externs Bound.unbounded (Bound.excluded v) index_store)
    ids_for BinaryOperator.lt_eq v =
        some (tree_range x.externs Bound.unbounded (Bound.included v) index_store)
    ids_for _ v = none

    sides-column : sides (Expr.identifier c) rhs ≡ some (c, rhs, false)
    sides-column = rw (column_ref, sides) refl

    simple_range-column :
        (op : BinaryOperator)
        → simple_range x db params (Expr.binary_op (Expr.identifier c) op rhs)
          ≡ bounds_of op c (constant x db params rhs)
    unfolding simple_range
    simple_range-column op = rw (sides-column, simple_range) refl

    indexed_range :
        (lower upper : Bound)
        → crosses x.externs lower upper ≡ false
        → range_ids x db params s table (some (c, lower, upper))
          ≡ some (ok (tree_range x.externs lower upper index_store))
    unfolding range_lookup
    indexed_range lower upper e = rw (indexed, e, range_ids) refl

    indexed_ids-ids_for :
        (op : BinaryOperator)
        → answered op ≡ true
        → indexed_ids x db params s table (where_clause x db params s c rhs op)
          ≡ answer (ids_for op (constant x db params rhs))
    unfolding indexed_ids simple_equality simple_range lookup_index range_lookup
    indexed_ids-ids_for BinaryOperator.eq a = rw (column_ref, indexed, indexed_ids) refl
    indexed_ids-ids_for BinaryOperator.gt a =
        let v = constant x db params rhs in
        rw (simple_range-column BinaryOperator.gt, indexed_ids)
          (indexed_range (Bound.excluded v) Bound.unbounded refl)
    indexed_ids-ids_for BinaryOperator.gt_eq a =
        let v = constant x db params rhs in
        rw (simple_range-column BinaryOperator.gt_eq, indexed_ids)
          (indexed_range (Bound.included v) Bound.unbounded refl)
    indexed_ids-ids_for BinaryOperator.lt a =
        let v = constant x db params rhs in
        rw (simple_range-column BinaryOperator.lt, indexed_ids)
          (indexed_range Bound.unbounded (Bound.excluded v) refl)
    indexed_ids-ids_for BinaryOperator.lt_eq a =
        let v = constant x db params rhs in
        rw (simple_range-column BinaryOperator.lt_eq, indexed_ids)
          (indexed_range Bound.unbounded (Bound.included v) refl)
    indexed_ids-ids_for op a = ground arith

    module _ (mirrors : Mirrors x.externs idx store index_store) (plain : Plain store)
        (is_constant : Constant) (plain_constant : is_plain (constant x db params rhs) ≡ true)
        (no_rowid : ("_rowid_" == c) ≡ false) where
      ids_for-compares :
          (op : BinaryOperator) (r : RowId) (row : Row) (w : Value)
          → answered op ≡ true
          → lookup r store ≡ some row
          → index_value idx row ≡ some w
          → is_plain w ≡ true
          → contains_id r (unwrap_or (ids_for op (constant x db params rhs)) [])
            ≡ compares x.externs op w (constant x db params rhs)
      ids_for-compares BinaryOperator.gt r row w a e i p =
          let v = constant x db params rhs in
          contains_id-tree_range x.externs idx store index_store mirrors (Bound.excluded v)
            Bound.unbounded r row w e i p
      ids_for-compares BinaryOperator.gt_eq r row w a e i p =
          let v = constant x db params rhs in
          contains_id-tree_range x.externs idx store index_store mirrors (Bound.included v)
            Bound.unbounded r row w e i p
      ids_for-compares BinaryOperator.lt r row w a e i p =
          let v = constant x db params rhs in
          contains_id-tree_range x.externs idx store index_store mirrors Bound.unbounded
            (Bound.excluded v) r row w e i p
      ids_for-compares BinaryOperator.lt_eq r row w a e i p =
          let v = constant x db params rhs in
          contains_id-tree_range x.externs idx store index_store mirrors Bound.unbounded
            (Bound.included v) r row w e i p
      ids_for-compares BinaryOperator.eq r row w a e i p =
          contains_id-ids_at x.externs idx store index_store mirrors r row w
            (constant x db params rhs) e i plain_constant
      ids_for-compares op r row w a e i p = ground arith

      let_through-compares :
          (op : BinaryOperator) (r : RowId) (row : Row) (w : Value)
          → answered op ≡ true
          → lookup r store ≡ some row
          → lookup c row ≡ some w
          → is_plain w ≡ true
          → let_through store op r ≡ compares x.externs op w (constant x db params rhs)
      let_through-compares op r row w a e k p =
          rw (e, let_through)
            (matches-compares x db params s c rhs op (tagged x db params r row) w
              (constant x db params rhs) a (lookup-tagged x db params r c row no_rowid ∙ k)
              (is_constant (tagged x db params r row)) p plain_constant)

      ids_for-none :
          (op : BinaryOperator) (r : RowId)
          → lookup r store ≡ none
          → contains_id r (unwrap_or (ids_for op (constant x db params rhs)) []) ≡ false
      ids_for-none BinaryOperator.gt r e =
          let v = constant x db params rhs in
          contains_id-tree_range-none x.externs idx store index_store mirrors (Bound.excluded v)
            Bound.unbounded r e
      ids_for-none BinaryOperator.gt_eq r e =
          let v = constant x db params rhs in
          contains_id-tree_range-none x.externs idx store index_store mirrors (Bound.included v)
            Bound.unbounded r e
      ids_for-none BinaryOperator.lt r e =
          let v = constant x db params rhs in
          contains_id-tree_range-none x.externs idx store index_store mirrors Bound.unbounded
            (Bound.excluded v) r e
      ids_for-none BinaryOperator.lt_eq r e =
          let v = constant x db params rhs in
          contains_id-tree_range-none x.externs idx store index_store mirrors Bound.unbounded
            (Bound.included v) r e
      ids_for-none BinaryOperator.eq r e =
          ground (arith, mirrors.listed (constant x db params rhs) r plain_constant)
      ids_for-none op r e = refl

      ids_for-let_through :
          (op : BinaryOperator) (r : RowId)
          → answered op ≡ true
          → contains_id r (unwrap_or (ids_for op (constant x db params rhs)) [])
            ≡ let_through store op r
      ids_for-let_through op r a = elim (Option-cases (lookup r store)) [
        | inl e ↦ ids_for-none op r e ∙ sym (rw (e, let_through) refl)
        | inr (row, e) ↦
            let (w, k, p) = plain r row e in
            ids_for-compares op r row w a e
              (index_value-single c idx row (index_on-single x db params s table c idx indexed) ∙ k)
              p
            ∙ sym (let_through-compares op r row w a e k p)
      ]

      ids_for-some :
          (op : BinaryOperator) (v : Value)
          → answered op ≡ true
          → ids_for op v ≡ some (unwrap_or (ids_for op v) [])
      ids_for-some BinaryOperator.eq v a = refl
      ids_for-some BinaryOperator.gt v a = refl
      ids_for-some BinaryOperator.gt_eq v a = refl
      ids_for-some BinaryOperator.lt v a = refl
      ids_for-some BinaryOperator.lt_eq v a = refl
      ids_for-some op v a = ground arith

      -- For a WHERE clause that compares an indexed column by =, <, <=, > or >= with another side,
      -- the index gives exactly the ids of the rows that the clause lets through, if the index
      -- lists each row under its value, every row has a value in the column, neither these nor the
      -- other side are reals, the other side has the same value on every row as on none, and the
      -- column is not _rowid_.
      pub indexed_ids-let_through :
          (op : BinaryOperator)
          → answered op ≡ true
          → (ids : List RowId) × (indexed_ids x db params s table
                (where_clause x db params s c rhs op)
              ≡ some (ok ids))
            × ((r : RowId) → contains_id r ids ≡ let_through store op r)
      indexed_ids-let_through op a =
          let v = constant x db params rhs in
          (
            unwrap_or (ids_for op v) [],
            indexed_ids-ids_for op a ∙ ap answer (ids_for-some op v a),
            λ r. ids_for-let_through op r a,
          )
