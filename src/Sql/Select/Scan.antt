-- ===== src/Sql/Select/Scan.antt =====
-- src/sql/select.rs: the rows that a query on one table starts from, by an index where the WHERE
-- clause is one comparison of an indexed column, else all.
pub mod Compares
pub mod Exact
pub mod Between
use skvs.Prelude.{
  ℕ, String, Bool, true, false, Option, none, some, List, [], ◌∷◌, find, nat_eq, string_eq,
}
use skvs.Prelude.Int.{pos, wrap_i64}
use skvs.Prelude.Map.{lookup, insert}
use skvs.Error.{SkvsError, Result, ok, err, ◌>>=◌}
use skvs.Value.{Value, Row, RowId}
use skvs.Schema.{IndexDef}
use skvs.BTree.{Bound}
use skvs.State.{KvsState, Store, get_schema, get_table_store}
use skvs.Index.{lookup_index, range_lookup}
use skvs.Constraint.{single_column}
use skvs.Expr.Ast.{Expr, BinaryOperator}
use skvs.Expr.Eval.{eval}
use skvs.Sql.Env.{Env}

abbrev pub is_column_ref : Expr → Bool
is_column_ref (Expr.identifier _) = true
is_column_ref (Expr.compound_identifier _) = true
is_column_ref _ = false

-- `col OP other` or `other OP col`: the column, the other side, and whether they are swapped.
abbrev pub sides : Expr → Expr → Option (String × Expr × Bool)
sides (Expr.identifier c) e = elim (is_column_ref e) [ true ↦ none | false ↦ some (c, e, false) ]
sides e (Expr.identifier c) = elim (is_column_ref e) [ true ↦ none | false ↦ some (c, e, true) ]
sides _ _ = none

abbrev flip_op : BinaryOperator → BinaryOperator
flip_op BinaryOperator.lt = BinaryOperator.gt
flip_op BinaryOperator.lt_eq = BinaryOperator.gt_eq
flip_op BinaryOperator.gt = BinaryOperator.lt
flip_op BinaryOperator.gt_eq = BinaryOperator.lt_eq
flip_op op = op

abbrev pub bounds_of : BinaryOperator → String → Value → Option (String × Bound × Bound)
bounds_of BinaryOperator.gt c v = some (c, Bound.excluded v, Bound.unbounded)
bounds_of BinaryOperator.gt_eq c v = some (c, Bound.included v, Bound.unbounded)
bounds_of BinaryOperator.lt c v = some (c, Bound.unbounded, Bound.excluded v)
bounds_of BinaryOperator.lt_eq c v = some (c, Bound.unbounded, Bound.included v)
bounds_of _ c v = none

module _ (x : Env) (db : ℕ) (params : List Value) where
  abbrev pub constant : Expr → Value
  constant e = (eval x.externs none params e 0).0

  abbrev equality_of : Option (String × Expr × Bool) → Option (String × Value)
  equality_of none = none
  equality_of (some (c, e, flipped)) = some (c, constant e)

  unfoldable pub simple_equality : Expr → Option (String × Value)
  simple_equality (Expr.binary_op l BinaryOperator.eq r) = equality_of (sides l r)
  simple_equality _ = none

  abbrev range_of : BinaryOperator → Option (String × Expr × Bool) → Option (String × Bound × Bound)
  range_of op none = none
  range_of op (some (c, e, false)) = bounds_of op c (constant e)
  range_of op (some (c, e, true)) = bounds_of (flip_op op) c (constant e)

  -- Both ends of a BETWEEN count their parameters from 0.
  unfoldable pub simple_range : Expr → Option (String × Bound × Bound)
  simple_range (Expr.binary_op l op r) = range_of op (sides l r)
  simple_range (Expr.between (Expr.identifier c) false lo hi) =
      some (c, Bound.included (constant lo), Bound.included (constant hi))
  simple_range _ = none

  abbrev pub tagged : RowId → Row → Row
  tagged r row = insert "_rowid_" (Value.integer (wrap_i64 (pos r))) row

  unfoldable pub rows_from_ids : Store → List RowId → List Row
  rows_from_ids store [] = []
  rows_from_ids store (r ∷ rs) = elim (lookup r store) [
    | none ↦ rows_from_ids store rs
    | some row ↦ tagged r row ∷ rows_from_ids store rs
  ]

  unfoldable pub all_rows : Store → List Row
  all_rows [] = []
  all_rows ((r, row) ∷ rest) = tagged r row ∷ all_rows rest

  -- The index on exactly this column.
  abbrev pub index_on : KvsState → String → String → Option IndexDef
  index_on s table col = elim (get_schema db table s) [
    | none ↦ none
    | some schema ↦ find (single_column col) schema.indices
  ]

  abbrev equality_ids : KvsState → String → Option (String × Value) → Option (Result (List RowId))
  equality_ids s table none = none
  equality_ids s table (some (c, v)) = elim (index_on s table c) [
    | none ↦ none
    | some i ↦ some (ok (lookup_index x.externs db table i.name v s))
  ]

  abbrev pub range_ids :
      KvsState → String → Option (String × Bound × Bound) → Option (Result (List RowId))
  range_ids s table none = none
  range_ids s table (some (c, lower, upper)) = elim (index_on s table c) [
    | none ↦ none
    | some i ↦ some (range_lookup x.externs db table i.name lower upper s)
  ]

  -- The ids that an index gives for the WHERE clause, if one applies; `err` is a panic.
  unfoldable pub indexed_ids : KvsState → String → Option Expr → Option (Result (List RowId))
  indexed_ids s table none = none
  indexed_ids s table (some e) = elim (equality_ids s table (simple_equality e)) [
    | some ids ↦ some ids
    | none ↦ range_ids s table (simple_range e)
  ]

  unfoldable pub rows_for_simple_where : KvsState → String → Option Expr → Result (List Row)
  rows_for_simple_where s table selection = elim (get_table_store db table s) [
    | none ↦ err SkvsError.schema
    | some store ↦ elim (indexed_ids s table selection) [
      | some ids ↦ ids >>= (λ is. ok (rows_from_ids store is))
      | none ↦ ok (all_rows store)
    ]
  ]
