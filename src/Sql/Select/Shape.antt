-- ===== src/Sql/Select/Shape.antt =====
-- src/sql/select.rs: the projection, ORDER BY, LIMIT and OFFSET, DISTINCT, and the column names.
pub mod Sorted
pub mod Pass
use Prim.Native.String.{◌++◌ as append}
use Prim.Native.Nat.{Ordering}
use skvs.Prelude.{
  ℕ, String, Bool, true, false, Option, none, some, List, [], ◌∷◌, unwrap_or, any, all, map, length,
  take, drop, ◌==◌, string_eq, if◌then◌else◌,
}
use skvs.Prelude.Map.{insert}
use skvs.Text.{parse_usize}
use skvs.Value.{Value, Row, compare_values}
use skvs.Expr.Ast.{Expr, SqlValue}
use skvs.Expr.Eval.{eval, last_part}
use skvs.Sql.Ast.{SelectItem, OrderByExpr}
use skvs.Sql.Env.{Env}

abbrev is_wildcard : SelectItem → Bool
is_wildcard SelectItem.wildcard = true
is_wildcard _ = false

abbrev is_any_wildcard : SelectItem → Bool
is_any_wildcard SelectItem.wildcard = true
is_any_wildcard SelectItem.qualified_wildcard = true
is_any_wildcard _ = false

unfoldable pub is_wildcard_projection : List SelectItem → Bool
is_wildcard_projection [] = true
is_wildcard_projection (i ∷ is) = any is_any_wildcard (i ∷ is)

abbrev insert_each : Row → Row → Row
insert_each [] out = out
insert_each ((k, v) ∷ rest) out = insert_each rest (insert k v out)

-- `expr_to_usize`
abbrev pub expr_to_usize : Expr → Option ℕ
expr_to_usize (Expr.value (SqlValue.number n)) = parse_usize n
expr_to_usize _ = none

module _ (x : Env) where
  unfoldable pub item_name : Expr → String
  item_name (Expr.identifier c) = c
  item_name (Expr.compound_identifier parts) =
      unwrap_or (last_part parts) (x.expr_to_string (Expr.compound_identifier parts))
  item_name e = x.expr_to_string e

  unfoldable pub get_projection_columns : List SelectItem → List String
  unfolding item_name
  get_projection_columns [] = "*" ∷ []
  get_projection_columns (i ∷ is) =
      map
        (λ item. elim item [
          | SelectItem.unnamed e ↦ item_name e
          | SelectItem.with_alias e alias ↦ alias
          | SelectItem.wildcard ↦ "*"
          | SelectItem.qualified_wildcard ↦ "*"
        ])
        (i ∷ is)

  -- Every item counts its parameters from 0.
  unfoldable pub project : List Value → Row → List SelectItem → Row → Row
  unfolding item_name
  project params row [] out = out
  project params row (SelectItem.unnamed e ∷ items) out =
      project params row items (insert (item_name e) (eval x.externs (some row) params e 0).0 out)
  project params row (SelectItem.with_alias e alias ∷ items) out =
      project params row items (insert alias (eval x.externs (some row) params e 0).0 out)
  project params row (SelectItem.wildcard ∷ items) out =
      project params row items (insert_each row out)
  project params row (SelectItem.qualified_wildcard ∷ items) out =
      project params row items (insert_each row out)

  unfoldable pub apply_projection : List Value → List SelectItem → List Row → List Row
  unfolding project
  apply_projection params projection rows =
      if all is_wildcard projection
      then rows
      else map (λ row. project params row projection []) rows

  -- The order of two rows by one expression.
  abbrev pub reversed : Ordering → Ordering
  reversed Ordering.lt = Ordering.gt
  reversed Ordering.eq = Ordering.eq
  reversed Ordering.gt = Ordering.lt

  unfoldable pub compare_rows : OrderByExpr → Row → Row → Ordering
  compare_rows o a b =
      let cmp =
        compare_values x.externs (eval x.externs (some a) [] o.expr 0).0
          (eval x.externs (some b) [] o.expr 0).0 in
      if unwrap_or o.asc true then cmp else reversed cmp

  -- `sort_by` is stable: a row goes before the later rows that are not less.
  unfoldable pub insert_sorted : (Row → Row → Ordering) → Row → List Row → List Row
  insert_sorted cmp r [] = r ∷ []
  insert_sorted cmp r (q ∷ rows) = elim (cmp r q) [
    | Ordering.lt ↦ r ∷ q ∷ rows
    | Ordering.eq ↦ r ∷ q ∷ rows
    | Ordering.gt ↦ q ∷ insert_sorted cmp r rows
  ]

  unfoldable pub sort_rows : (Row → Row → Ordering) → List Row → List Row
  unfolding insert_sorted
  sort_rows cmp [] = []
  sort_rows cmp (r ∷ rows) = insert_sorted cmp r (sort_rows cmp rows)

  -- The last key is sorted by first.
  unfoldable pub apply_order_by : List OrderByExpr → List Row → List Row
  unfolding sort_rows compare_rows
  apply_order_by [] rows = rows
  apply_order_by (o ∷ os) rows = sort_rows (compare_rows o) (apply_order_by os rows)

  abbrev debug_row : Row → String
  debug_row [] = ""
  debug_row ((k, v) ∷ rest) = append k (append ":" (append (x.value_debug v) (debug_row rest)))

  abbrev distinct_from : List String → List Row → List Row
  distinct_from seen [] = []
  distinct_from seen (r ∷ rs) =
      let k = debug_row r in
      if any (λ j. j == k) seen then distinct_from seen rs else r ∷ distinct_from (k ∷ seen) rs

  unfoldable pub distinct_rows : List Row → List Row
  distinct_rows rows = distinct_from [] rows

abbrev or_length : Option Expr → ℕ → ℕ
or_length none n = n
or_length (some e) n = unwrap_or (expr_to_usize e) n

-- No LIMIT, and then OFFSET is not read either.
unfoldable pub apply_limit : Option Expr → Option Expr → List Row → List Row
apply_limit none offset rows = rows
apply_limit (some e) offset rows =
    take (or_length (some e) (length rows)) (drop (or_length offset 0) rows)
