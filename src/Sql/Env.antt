-- ===== src/Sql/Env.antt =====
-- What the engine takes from outside: the routines of `Externs`, and the parser and the printer of
-- the `sqlparser` crate.
use skvs.Prelude.{ℕ, String, Option, List}
use skvs.Externs.{Externs}
use skvs.Error.{Result}
use skvs.Value.{Value, Row}
use skvs.Expr.Ast.{Expr}
use skvs.Sql.Ast.{Query, Statement}
use skvs.State.{KvsState}

pub record Env : Type 0 where
  pub externs : Externs
  -- `Parser::parse_sql` and `parse_expr`; `none` is a parse error
  pub parse_sql : String → Option (List Statement)
  pub parse_expr : String → Option Expr
  pub expr_to_string : Expr → String
  pub query_to_string : Query → String
  -- the `Debug` text of a value
  pub value_debug : Value → String

-- src/sql/mod.rs
pub record QueryResult : Type 0 where
  pub columns : List String
  pub rows : List Row
  pub affected_rows : Option ℕ
  pub tx_id : Option ℕ

-- A statement keeps what it has written when it fails.
abbrev pub Exec {ℓ} : Type ℓ → Type ℓ
Exec A = KvsState → Result A × KvsState
