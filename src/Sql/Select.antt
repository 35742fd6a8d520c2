-- ===== src/Sql/Select.antt =====
-- src/sql/select.rs: SELECT. It reads the state and does not change it. A view is run from its
-- text, on fuel: a view that reads itself does not come back.
pub mod Scan
pub mod Join
pub mod Group
pub mod Shape
use skvs.Prelude.{
  ℕ, zero, suc, String, Bool, true, false, not, ◌&&◌, Option, none, some, List, [], ◌∷◌, any, keep,
  unwrap_or, is_some, ◌==◌, string_eq, if◌then◌else◌,
}
use skvs.Prelude.Map.{Map, keys, remove}
use skvs.Error.{SkvsError, Result, ok, err, ◌>>=◌}
use skvs.Value.{Value, Row}
use skvs.Schema.{TableSchema}
use skvs.State.{KvsState, get_schema, get_view_definition}
use skvs.Expr.Ast.{Expr}
use skvs.Sql.Ast.{Statement, Query, Select, SetExpr, TableWithJoins, SelectItem, GroupByExpr}
use skvs.Sql.Env.{Env, QueryResult}
use skvs.Sql.Where.{matches}
use skvs.Sql.Dml.{rows_result}
use skvs.Sql.Select.Scan.{rows_for_simple_where}
use skvs.Sql.Select.Join.{parse_table_factor, execute_joins}
use skvs.Sql.Select.Group.{is_grouped, apply_group_by}
use skvs.Sql.Select.Shape.{
  apply_projection, apply_order_by, apply_limit, get_projection_columns, is_wildcard_projection,
  distinct_rows,
}

module _ (x : Env) (db : ℕ) (params : List Value) where
  abbrev pub filter_where : KvsState → Option Expr → List Row → List Row
  filter_where s selection rows = keep (λ row. matches x.externs s db row params selection 0) rows

  -- What both kinds of FROM clause go through, from WHERE to the projection.
  unfoldable pub finish : KvsState → Query → Select → List Row → List Row
  finish s q sel rows =
      let grouped = is_grouped sel.group_by in
      let found =
        apply_group_by x sel.group_by sel.projection (filter_where s sel.selection rows) in
      let limited = apply_limit q.limit q.offset (apply_order_by x q.order_by found) in
      if grouped then limited else apply_projection x params sel.projection limited

  -- DISTINCT, the internal field, and the column names.
  abbrev strip : List Row → List Row
  strip [] = []
  strip (row ∷ rows) = remove "_rowid_" row ∷ strip rows

  abbrev wildcard_columns : Option TableSchema → List Row → List String
  wildcard_columns schema (row ∷ rows) = keys row
  wildcard_columns (some schema) [] = keys schema.columns
  wildcard_columns none [] = "*" ∷ []

  unfoldable pub result_of : Select → Option TableSchema → List Row → QueryResult
  result_of sel schema rows =
      let out = strip (if sel.distinct then distinct_rows x rows else rows) in
      rows_result out (
        if is_wildcard_projection sel.projection
        then wildcard_columns schema out
        else get_projection_columns x sel.projection)

  abbrev no_joins : TableWithJoins → Bool
  no_joins t = elim t.joins [ [] ↦ true | _ ∷ _ ↦ false ]

  -- The first statement of a view's text, as a query.
  abbrev view_query : String → Result Query
  view_query text = elim (x.parse_sql text) [
    | none ↦ err SkvsError.sql_parse
    | some [] ↦ err SkvsError.view
    | some (Statement.query q ∷ _) ↦ ok q
    | some (_ ∷ _) ↦ err SkvsError.view
  ]

  abbrev from_join : KvsState → Query → Select → Result QueryResult
  from_join s q sel =
      execute_joins x db params s sel.from >>= λ rows. ok (result_of sel none (finish s q sel rows))

  -- `run` executes the query of a view.
  unfoldable pub select_from :
      (Query → Result QueryResult) → KvsState → Query → Select → Result QueryResult
  select_from run s q sel = elim sel.from [
    | [] ↦ ok (result_of sel none [])
    | t ∷ ts ↦ elim ts [
      | _ ∷ _ ↦ from_join s q sel
      | [] ↦
          if no_joins t
          then (let table = (parse_table_factor t.relation).0 in
              elim (get_view_definition db table s) [
                | some text ↦ (view_query text >>= run) >>= λ inner.
                    ok (result_of sel none (finish s q sel inner.rows))
                | none ↦ rows_for_simple_where x db params s table sel.selection >>= λ rows.
                    ok (result_of sel (get_schema db table s) (finish s q sel rows))
              ])
          else from_join s q sel
    ]
  ]

  unfoldable pub execute_select : ℕ → Query → KvsState → Result QueryResult
  execute_select zero q s = err SkvsError.crash
  execute_select (suc fuel) q s = elim q.body [
    | SetExpr.select sel ↦ select_from (λ v. execute_select fuel v s) s q sel
    | SetExpr.values _ ↦ err SkvsError.unsupported
    | SetExpr.other ↦ err SkvsError.unsupported
  ]
