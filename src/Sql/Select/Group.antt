-- ===== src/Sql/Select/Group.antt =====
-- src/sql/select.rs: GROUP BY and the aggregates.
use skvs.Prelude.{
  ℕ, String, Bool, true, false, not, Option, none, some, List, [], ◌∷◌, ◌++◌, unwrap_or, first,
  keep, any, length, map, ◌==◌, string_eq, if◌then◌else◌,
}
use Prim.Native.Nat.{Ordering}
use skvs.Prelude.Int.{pos}
use skvs.Prelude.Map.{Map, lookup, insert}
use skvs.Externs.{F64, is_equal}
use skvs.Text.{join}
use skvs.Value.{Value, Row, null, integer, real, is_null, compare_values}
use skvs.Expr.Ast.{Expr, Args}
use skvs.Expr.Arithmetic.{to_f64}
use skvs.Expr.Eval.{eval, last_part}
use skvs.Sql.Ast.{SelectItem, GroupByExpr}
use skvs.Sql.Env.{Env}

unfoldable pub is_grouped : GroupByExpr → Bool
is_grouped GroupByExpr.all = false
is_grouped (GroupByExpr.expressions []) = false
is_grouped (GroupByExpr.expressions (e ∷ es)) = true

-- The column that an aggregate is applied to: its first argument, if that is a name.
abbrev arg_column : Args → Option String
arg_column (Args.arg (Expr.identifier c) _) = some c
arg_column (Args.arg (Expr.compound_identifier parts) _) = last_part parts
arg_column _ = none

abbrev is_star : Args → Bool
is_star Args.no_args = true
is_star (Args.wildcard _) = true
is_star _ = false

-- `rows.iter().filter_map(|r| r.get(col))`
abbrev column : String → List Row → List Value
column c [] = []
column c (r ∷ rs) = elim (lookup c r) [ none ↦ column c rs | some v ↦ v ∷ column c rs ]

module _ (x : Env) where
  -- The first of each debug text.
  abbrev distinct_values : List String → List Value → List Value
  distinct_values seen [] = []
  distinct_values seen (v ∷ vs) =
      let k = x.value_debug v in
      if any (λ j. j == k) seen then distinct_values seen vs else v ∷ distinct_values (k ∷ seen) vs

  abbrev numbers : List Value → List F64
  numbers [] = []
  numbers (v ∷ vs) = elim (to_f64 x.externs v) [ none ↦ numbers vs | some f ↦ f ∷ numbers vs ]

  abbrev sum_from : F64 → List F64 → F64
  sum_from acc [] = acc
  sum_from acc (f ∷ fs) = sum_from (x.externs.f64_add acc f) fs

  -- `max_by` keeps the last of equal values, `min_by` the first.
  abbrev max_from : Value → List Value → Value
  max_from best [] = best
  max_from best (v ∷ vs) =
      max_from (elim (compare_values x.externs best v) [ Ordering.gt ↦ best | _ ↦ v ]) vs

  abbrev min_from : Value → List Value → Value
  min_from best [] = best
  min_from best (v ∷ vs) =
      min_from (elim (compare_values x.externs best v) [ Ordering.gt ↦ v | _ ↦ best ]) vs

  abbrev extreme : (Value → List Value → Value) → List Value → Value
  extreme f [] = null
  extreme f (v ∷ vs) = f v vs

  abbrev whole_or_real : F64 → Value
  whole_or_real f =
      if is_equal (x.externs.partial_cmp (x.externs.f64_fract f) 0)
      then integer (x.externs.i64_of_f64 f)
      else real f

  abbrev average : List F64 → Value
  average [] = null
  average (f ∷ fs) =
      real (x.externs.f64_div (sum_from 0 (f ∷ fs)) (x.externs.f64_of_i64 (pos (length (f ∷ fs)))))

  abbrev count_values : Bool → String → List Row → ℕ
  count_values distinct c rows =
      let vals = keep (λ v. not (is_null v)) (column c rows) in
      length (if distinct then distinct_values [] vals else vals)

  abbrev count_of : Bool → Args → List Row → ℕ
  count_of distinct args rows =
      if is_star args
      then length rows
      else elim (arg_column args) [ none ↦ length rows | some c ↦ count_values distinct c rows ]

  abbrev over_column : (List Value → Value) → Args → List Row → Value
  over_column f args rows = elim (arg_column args) [ none ↦ null | some c ↦ f (column c rows) ]

  unfoldable pub evaluate_aggregate : Expr → List Row → Value
  evaluate_aggregate (Expr.function func distinct args) rows =
      let name = x.externs.to_lowercase func in
      if name == "count"
      then integer (pos (count_of distinct args rows))
      else if name == "sum"
      then over_column (λ vs. whole_or_real (sum_from 0 (numbers vs))) args rows
      else if name == "avg"
      then over_column (λ vs. average (numbers vs)) args rows
      else if name == "max"
      then over_column (extreme max_from) args rows
      else if name == "min"
      then over_column (extreme min_from) args rows
      else null
  evaluate_aggregate (Expr.identifier c) rows = elim (first rows) [
    | none ↦ null
    | some r ↦ unwrap_or (lookup c r) null
  ]
  evaluate_aggregate _ rows = null

  abbrev group_key : List Expr → Row → String
  group_key exprs row =
      join "\u{1}" (map (λ e. x.value_debug (eval x.externs (some row) [] e 0).0) exprs)

  -- The groups in the order of their first rows.
  unfoldable pub group_rows : List Expr → List Row → Map String (List Row) → Map String (List Row)
  group_rows exprs [] m = m
  group_rows exprs (r ∷ rs) m =
      let k = group_key exprs r in
      group_rows exprs rs (insert k (unwrap_or (lookup k m) [] ++ (r ∷ [])) m)

  abbrev aggregate_name : Expr → String
  aggregate_name (Expr.identifier c) = c
  aggregate_name e = x.expr_to_string e

  abbrev aggregate_row : List SelectItem → List Row → Row → Row
  aggregate_row [] rows out = out
  aggregate_row (SelectItem.unnamed e ∷ items) rows out =
      aggregate_row items rows (insert (aggregate_name e) (evaluate_aggregate e rows) out)
  aggregate_row (SelectItem.with_alias e alias ∷ items) rows out =
      aggregate_row items rows (insert alias (evaluate_aggregate e rows) out)
  aggregate_row (SelectItem.wildcard ∷ items) rows out = aggregate_row items rows out
  aggregate_row (SelectItem.qualified_wildcard ∷ items) rows out = aggregate_row items rows out

  abbrev aggregate_groups : List SelectItem → Map String (List Row) → List Row
  aggregate_groups items [] = []
  aggregate_groups items ((k, rows) ∷ rest) =
      aggregate_row items rows [] ∷ aggregate_groups items rest

  unfoldable pub apply_group_by : GroupByExpr → List SelectItem → List Row → List Row
  apply_group_by GroupByExpr.all projection rows = rows
  apply_group_by (GroupByExpr.expressions []) projection rows = rows
  apply_group_by (GroupByExpr.expressions (e ∷ es)) projection rows =
      aggregate_groups projection (group_rows (e ∷ es) rows [])
