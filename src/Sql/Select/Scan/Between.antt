-- ===== src/Sql/Select/Scan/Between.antt =====
-- src/sql/select.rs: BETWEEN with two placeholders on an indexed column.
use skvs.Prelude.{
  ℕ, String, true, false, ◌≡◌, refl, ◌∙◌, Option, some, List, ◌∷◌, nat_eq, string_eq, ◌==◌, arith,
}
use skvs.Prelude.Map.{lookup}
use skvs.Value.{Value, Row, RowId}
use skvs.Value.Order.{is_plain}
use skvs.Externs.{Externs}
use skvs.Schema.{IndexDef}
use skvs.BTree.{Bound, tree_range, crosses}
use skvs.Error.{ok}
use skvs.State.{KvsState, Store, get_or_create_index_store}
use skvs.Index.{contains_id, range_lookup}
use skvs.Index.Ids.{same}
use skvs.Index.Mirror.{Mirrors}
use skvs.Index.Range.{contains_id-tree_range, in_bounds}
use skvs.Expr.Ast.{Expr, SqlValue}
use skvs.Expr.Eval.{eval, eval_literal, in_range}
use skvs.Sql.Env.{Env}
use skvs.Sql.Where.{evaluate_where_ctx, matches}
use skvs.Sql.Select.Scan.{simple_equality, simple_range, range_ids, index_on, indexed_ids, tagged}
use skvs.Sql.Select.Scan.Compares.{
  index_value-single, index_on-single, lookup-tagged, truthy-bool_val,
}

-- `c BETWEEN ? AND ?`
abbrev pub between_placeholders : String → Option Expr
between_placeholders c = some (
    Expr.between (Expr.identifier c) false (Expr.value SqlValue.placeholder)
      (Expr.value SqlValue.placeholder))

in_bounds-same :
    (x : Externs) (v w : Value) → in_bounds x (Bound.included v) (Bound.included v) w ≡ same x w v
in_bounds-same x v w = ground arith

module _ (x : Env) (db : ℕ) (s : KvsState) (table c : String) (idx : IndexDef) (store : Store)
    (u v : Value) (others : List Value) where
  abbrev two_params : List Value
  two_params = u ∷ v ∷ others

  matches-between :
      (row : Row) (w : Value)
      → lookup c row ≡ some w
      → matches x.externs s db row two_params (between_placeholders c) 0 ≡ in_range x.externs w u v
  unfolding evaluate_where_ctx eval eval_literal
  matches-between row w e = rw e (truthy-bool_val x.externs (in_range x.externs w u v))

  ids-between :
      index_on x db two_params s table c ≡ some idx
      → crosses x.externs (Bound.included u) (Bound.included u) ≡ false
      → indexed_ids x db two_params s table (between_placeholders c)
        ≡ some (
            ok (
              tree_range x.externs
                (Bound.included u)
                (Bound.included u)
                (get_or_create_index_store db table idx.name s)))
  unfolding indexed_ids simple_equality simple_range range_lookup eval eval_literal
  ids-between e f = rw (e, f, range_ids) refl

  -- For BETWEEN with two placeholders on an indexed column the index gives a row exactly when its
  -- value is the first parameter, while the WHERE clause lets it through exactly when its value is
  -- between the two parameters, if the index lists each row under its value, the value is not a
  -- real, the first parameter does not compare as greater than itself, and the column is not
  -- _rowid_.
  pub indexed_ids-between :
      index_on x db two_params s table c ≡ some idx
      → Mirrors x.externs idx store (get_or_create_index_store db table idx.name s)
      → ("_rowid_" == c) ≡ false
      → crosses x.externs (Bound.included u) (Bound.included u) ≡ false
      → (ids : List RowId) × (indexed_ids x db two_params s table (between_placeholders c)
          ≡ some (ok ids))
        × ((r : RowId) (row : Row) (w : Value)
            → lookup r store ≡ some row
            → lookup c row ≡ some w
            → is_plain w ≡ true
            → (contains_id r ids ≡ same x.externs w u)
              × (matches x.externs s db
                    (tagged x db two_params r row)
                    two_params
                    (between_placeholders c)
                    0
                  ≡ in_range x.externs w u v))
  indexed_ids-between e m n f =
      let at_u = Bound.included u in
      let i = get_or_create_index_store db table idx.name s in
      let one = index_on-single x db two_params s table c idx e in
      (
        tree_range x.externs at_u at_u i,
        ids-between e f,
        λ r row w k l p. (
          contains_id-tree_range x.externs idx store i m at_u at_u r row w k
                (index_value-single c idx row one ∙ l) p
              ∙ in_bounds-same x.externs u w,
          matches-between (tagged x db two_params r row) w
              (lookup-tagged x db two_params r c row n ∙ l),
        ),
      )
