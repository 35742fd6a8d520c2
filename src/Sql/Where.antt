-- ===== src/Sql/Where.antt =====
-- src/sql/select.rs: `evaluate_where_ctx`, which the other statements share.
use skvs.Prelude.{
  ℕ, suc, nat_beq, String, Bool, true, false, not, ◌&&◌, Option, none, some, List, any, ◌==◌,
  nat_eq, string_eq, if◌then◌else◌,
}
use skvs.Prelude.Int.{to_u64}
use skvs.Prelude.Map.{lookup}
use skvs.Externs.{Externs}
use skvs.Value.{Value, Row, RowId, integer, truthy}
use skvs.Fts.{search_index}
use skvs.State.{KvsState, get_fts_table}
use skvs.Expr.Ast.{Expr, Args, SqlValue, UnaryOperator, BinaryOperator}
use skvs.Expr.Eval.{Tester, eval}

-- The first argument of `fts_match` is a name or a text, the second a text.
abbrev pub name_arg : Expr → Option String
name_arg (Expr.identifier s) = some s
name_arg (Expr.value (SqlValue.single_quoted_string s)) = some s
name_arg _ = none

abbrev pub text_arg : Expr → Option String
text_arg (Expr.value (SqlValue.single_quoted_string s)) = some s
text_arg _ = none

abbrev count_of : Args → ℕ
count_of Args.no_args = 0
count_of (Args.arg _ r) = suc (count_of r)
count_of (Args.named _ _ r) = suc (count_of r)
count_of (Args.wildcard r) = suc (count_of r)
count_of (Args.other_arg r) = suc (count_of r)

abbrev fts_args : Args → Option (String × String)
fts_args (Args.arg t (Args.arg q _)) = elim (name_arg t) [
  | none ↦ none
  | some table ↦ elim (text_arg q) [ none ↦ none | some query ↦ some (table, query) ]
]
fts_args _ = none

-- `row.get("_rowid_")`, as a row id.
abbrev rowid_of : Row → Option RowId
rowid_of row = elim (lookup "_rowid_" row) [ some (integer i) ↦ some (to_u64 i) | _ ↦ none ]

module _ (x : Externs) (s : KvsState) (db : ℕ) (row : Row) where
  abbrev fts_search : String → String → Bool
  fts_search table query = elim (get_fts_table db table s) [
    | none ↦ false
    | some t ↦ elim (rowid_of row) [
      | none ↦ false
      | some r ↦ any (λ q. q == r) (search_index x query t.index)
    ]
  ]

  unfoldable pub fts_match : Args → Bool
  fts_match args = elim (fts_args args) [ none ↦ false | some (t, q) ↦ fts_search t q ]

  module _ (params : List Value) where
    abbrev where_value : Expr → Tester
    where_value e i = let (v, j) = eval x (some row) params e i in (truthy x v, j)

    -- AND and OR stop at the first side that decides, and then do not count the parameters of the
    -- other.
    unfoldable pub evaluate_where_ctx : Expr → Tester
    evaluate_where_ctx (Expr.binary_op l BinaryOperator.and r) i =
        let (a, j) = evaluate_where_ctx l i in
        let right = evaluate_where_ctx r j in if a then right else (false, j)
    evaluate_where_ctx (Expr.binary_op l BinaryOperator.or r) i =
        let (a, j) = evaluate_where_ctx l i in
        let right = evaluate_where_ctx r j in if a then (true, j) else right
    evaluate_where_ctx (Expr.unary_op UnaryOperator.not e) i =
        let (a, j) = evaluate_where_ctx e i in (not a, j)
    evaluate_where_ctx (Expr.nested e) i = evaluate_where_ctx e i
    evaluate_where_ctx (Expr.function name distinct args) i =
        if x.to_lowercase name == "fts_match" && nat_beq (count_of args) 2
        then (fts_match args, i)
        else where_value (Expr.function name distinct args) i
    evaluate_where_ctx e i = where_value e i

    -- The test of an optional WHERE clause, from the given index.
    abbrev pub matches : Option Expr → ℕ → Bool
    matches none i = true
    matches (some e) i = (evaluate_where_ctx e i).0
