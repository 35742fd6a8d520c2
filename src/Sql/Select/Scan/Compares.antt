-- ===== src/Sql/Select/Scan/Compares.antt =====
-- src/sql/select.rs, src/expr.rs: what a comparison of a column in a WHERE clause says of a row, on
-- the order of values.
use package.text.Mathlib.TextEquality.{eq_iff}
use skvs.Prelude.{
  ℕ, String, Bool, true, false, not, ◌≡◌, refl, ap, ◌∙◌, inl, inr, Option, some, List, [], ◌∷◌,
  find, nat_eq, string_eq, bytes_eq, ◌==◌, Bool-cases, Option-cases, arith,
}
use skvs.Prelude.Int.{pos, wrap_i64}
use skvs.Prelude.Map.{lookup, lookup-insert}
use skvs.Value.{Value, Row, RowId, integer, compare_values, value_eq, truthy}
use skvs.Value.Order.{is_plain}
use skvs.Externs.{Externs}
use skvs.Schema.{IndexDef}
use skvs.BTree.{Bound}
use skvs.State.{KvsState, get_schema}
use skvs.Index.{index_value}
use skvs.Index.Ids.{same}
use skvs.Index.Range.{in_bounds}
use skvs.Constraint.{single_column}
use skvs.Expr.Ast.{Expr, BinaryOperator}
use skvs.Expr.Arithmetic.{bool_val}
use skvs.Expr.Eval.{eval, strict_binary, eval_binary_op, is_lt, is_gt}
use skvs.Sql.Env.{Env}
use skvs.Sql.Where.{evaluate_where_ctx, matches}
use skvs.Sql.Select.Scan.{tagged, index_on}
use skvs.Value.Equal.{value_eq-same}

find-holds {ℓ} : {A : Type ℓ} (p : A → Bool) (xs : List A) (a : A) → find p xs ≡ some a → p a ≡ true
find-holds p [] a h = ground arith
find-holds p (y ∷ ys) a h = elim (Bool-cases (p y)) [
  | inl e ↦ ground (arith, e)
  | inr e ↦ find-holds p ys a (ground (arith, e))
]

pub index_on-single :
    (x : Env) (db : ℕ) (params : List Value) (s : KvsState) (table c : String) (idx : IndexDef)
    → index_on x db params s table c ≡ some idx
    → single_column c idx ≡ true
index_on-single x db params s table c idx h = elim (Option-cases (get_schema db table s)) [
  | inl e ↦ absurd (ground (arith, h, e))
  | inr (schema, e) ↦ find-holds (single_column c) schema.indices idx (ground (arith, h, e))
]

pub index_value-single :
    (c : String) (idx : IndexDef) (row : Row)
    → single_column c idx ≡ true
    → index_value idx row ≡ lookup c row
unfolding index_value
index_value-single c idx row h =
    elim idx.columns
        as (λ cs.
          single_column c (record idx { columns = cs }) ≡ true
          → index_value (record idx { columns = cs }) row ≡ lookup c row) [
            | [] ↦ λ h. ground arith
            | d ∷ ds ↦ λ h.
                elim ds
                    as (λ ds.
                      single_column c (record idx { columns = d ∷ ds }) ≡ true
                      → lookup d row ≡ lookup c row) [
                        | [] ↦ λ h. ap (λ n. lookup n row) ((eq_iff d c).0 h)
                        | _ ∷ _ ↦ λ h. ground arith
                      ]
                  h
          ]
      h

pub lookup-tagged :
    (x : Env) (db : ℕ) (params : List Value) (r : RowId) (c : String) (row : Row)
    → ("_rowid_" == c) ≡ false
    → lookup c (tagged x db params r row) ≡ lookup c row
lookup-tagged x db params r c row h =
    ground (arith, lookup-insert "_rowid_" c (integer (wrap_i64 (pos r))) row)

-- The comparisons of a WHERE clause that an index answers, on the order of values.
abbrev pub compares : Externs → BinaryOperator → Value → Value → Bool
compares x BinaryOperator.eq w v = same x w v
compares x BinaryOperator.gt w v = in_bounds x (Bound.excluded v) Bound.unbounded w
compares x BinaryOperator.gt_eq w v = in_bounds x (Bound.included v) Bound.unbounded w
compares x BinaryOperator.lt w v = in_bounds x Bound.unbounded (Bound.excluded v) w
compares x BinaryOperator.lt_eq w v = in_bounds x Bound.unbounded (Bound.included v) w
compares x _ w v = false

abbrev pub answered : BinaryOperator → Bool
answered BinaryOperator.eq = true
answered BinaryOperator.gt = true
answered BinaryOperator.gt_eq = true
answered BinaryOperator.lt = true
answered BinaryOperator.lt_eq = true
answered _ = false

pub truthy-bool_val : (x : Externs) (b : Bool) → truthy x (bool_val b) ≡ b
unfolding truthy
truthy-bool_val x true = refl
truthy-bool_val x false = refl

module _ (x : Env) (db : ℕ) (params : List Value) (s : KvsState) (c : String) (rhs : Expr) where
  abbrev pub where_clause : BinaryOperator → Option Expr
  where_clause op = some (Expr.binary_op (Expr.identifier c) op rhs)

  -- What the WHERE clause says of a row that has the value `w`.
  pub matches-compares :
      (op : BinaryOperator) (row : Row) (w v : Value)
      → answered op ≡ true
      → lookup c row ≡ some w
      → (eval x.externs (some row) params rhs 0).0 ≡ v
      → is_plain w ≡ true
      → is_plain v ≡ true
      → matches x.externs s db row params (where_clause op) 0 ≡ compares x.externs op w v
  unfolding evaluate_where_ctx eval eval_binary_op strict_binary
  matches-compares BinaryOperator.eq row w v a e k p q =
      rw (e, k)
        (truthy-bool_val x.externs (value_eq x.externs w v) ∙ value_eq-same x.externs w v p q)
  matches-compares BinaryOperator.gt row w v a e k p q =
      rw (e, k)
        (truthy-bool_val x.externs (is_gt x.externs (compare_values x.externs w v)) ∙ ground arith)
  matches-compares BinaryOperator.gt_eq row w v a e k p q =
      rw (e, k)
        (truthy-bool_val x.externs (not (is_lt x.externs (compare_values x.externs w v)))
          ∙ ground arith)
  matches-compares BinaryOperator.lt row w v a e k p q =
      rw (e, k)
        (truthy-bool_val x.externs (is_lt x.externs (compare_values x.externs w v)) ∙ ground arith)
  matches-compares BinaryOperator.lt_eq row w v a e k p q =
      rw (e, k)
        (truthy-bool_val x.externs (not (is_gt x.externs (compare_values x.externs w v)))
          ∙ ground arith)
  matches-compares op row w v a e k p q = ground arith
