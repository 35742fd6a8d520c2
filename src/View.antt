-- ===== src/View.antt =====
-- src/view.rs: views are kept as text, after a test that the text is one query.
use skvs.Prelude.{ℕ, String, Option, none, some, List, [], ◌∷◌}
use skvs.Error.{SkvsError, Result, ok, err}
use skvs.State.{KvsState, add_view, remove_view, get_view_definition}
use skvs.Sql.Ast.{Statement}
use skvs.Sql.Env.{Env, Exec}

abbrev one_query : List Statement → Result (Unit {0})
one_query (Statement.query q ∷ []) = ok tt
one_query _ = err SkvsError.unsupported

module _ (x : Env) where
  abbrev validated : String → Result (Unit {0})
  validated query = elim (x.parse_sql query) [
    | none ↦ err SkvsError.sql_parse
    | some statements ↦ one_query statements
  ]

  unfoldable pub create_view : ℕ → String → String → Exec (Unit {0})
  create_view db name query s = elim (validated query) [
    | err e ↦ (err e, s)
    | ok _ ↦ (ok tt, add_view db name query s)
  ]

unfoldable pub drop_view : ℕ → String → Exec (Unit {0})
drop_view db name s = remove_view db name s

unfoldable pub resolve_view : ℕ → String → KvsState → Option String
resolve_view db name s = get_view_definition db name s
