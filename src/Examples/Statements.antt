-- ===== src/Examples/Statements.antt =====
-- Statements that fail half-way, and one that is rolled back.
use skvs.Prelude.{
  subst, ap, unwrap_or, String, refl, none, some, List, [], ◌∷◌, nat_eq, string_eq, nat_beq_iff,
  arith,
}
use skvs.Prelude.Map.{lookup, insert, remove}
use skvs.Prelude.Nested.{get_in, put_in}
use skvs.Error.{SkvsError}
use skvs.State.{
  KvsState, get_triggers, get_table_store, new_with_config, get_schema, store_insert, get_fts_table,
  get_next_rowid,
}
use skvs.Value.{value_eq}
use skvs.Index.{update_indexes, update_each}
use skvs.Trigger.{fire_triggers}
use skvs.Text.{parse_i64}
use skvs.Expr.Eval.{eval, eval_literal, count_placeholders}
use skvs.Constraint.{
  validate_constraints, check_not_null, check_unique, value_exists_elsewhere, exists_in,
  check_groups, check_foreign_keys, check_columns, check_table,
}
use skvs.Sql.Exec.{for_each}
use skvs.Sql.Write.{write_insert, write_update}
use skvs.Sql.Dml.{
  execute_insert, insert_row, next_rowid, fill_defaults, values_row, execute_update, update_row,
  selected, assign,
}
use skvs.State.Rows.{SameRows}
use skvs.Transaction.{begin, rollback, journal, record_op, sync_fts_index, sync_fts_index_change}
use skvs.Expr.Ast.{Expr, SqlValue}
use skvs.Sql.Ast.{Statement, Query, SetExpr, TableFactor, Assignment}
use skvs.Sql.Dml.Inserting.{BelowCounter}
use skvs.Sql.Dml.Pending.{Distinct, distinct_nil, distinct_cons, apart_nil, apart_cons}
use skvs.Sql.Dml.Changing.{DistinctRows}
use skvs.Sql.Engine.{execute_atomically, execute_single_statement}
use skvs.Sql.Engine.Atomic.{execute_atomically-insert, execute_atomically-update, rollback-delete}
use skvs.Examples.Setting.{plain_env, plain_externs, one_user, row_of}

-- Users 1 and 2, with ids 7 and 8.
abbrev two_users : KvsState
two_users = record one_user {
  dbs = (1, ("users", (1, row_of 7) ∷ (2, row_of 8) ∷ []) ∷ []) ∷ [];
  rowid_generators = (1, ("users", 3) ∷ []) ∷ [];
}

abbrev number : String → Expr
number n = Expr.value (SqlValue.number n)

-- VALUES (9), (7)
abbrev nine_and_seven : Query
nine_and_seven = record {
  body = SetExpr.values ((number "9" ∷ []) ∷ (number "7" ∷ []) ∷ []);
  order_by = [];
  limit = none;
  offset = none;
}

-- SET id = 9
abbrev to_nine : List Assignment
to_nine = record { id = "id" ∷ []; value = number "9" } ∷ []

two_users-BelowCounter : BelowCounter 1 "users" two_users
unfolding get_in lookup
two_users-BelowCounter r row h = ground (arith, h, nat_beq_iff 1 r, nat_beq_iff 2 r)

two_users-DistinctRows : DistinctRows 1 "users" two_users
unfolding get_table_store get_in lookup
two_users-DistinctRows store h =
    subst Distinct (ap (λ o. unwrap_or o []) h)
      (distinct_cons (apart_cons (ground arith) apart_nil) (distinct_cons apart_nil distinct_nil))

execute_atomically-insert_example :
    SameRows
      (execute_atomically plain_env 1 1
        (Statement.insert "users" [] (some nine_and_seven))
        []
        two_users).1.dbs
      two_users.dbs
unfolding get_triggers get_in put_in lookup insert remove new_with_config execute_atomically
    execute_single_statement get_schema begin get_table_store for_each validate_constraints
    check_not_null check_unique value_exists_elsewhere exists_in value_eq check_groups
    check_foreign_keys check_columns check_table eval eval_literal parse_i64 fire_triggers
    store_insert journal record_op update_indexes update_each get_fts_table sync_fts_index
    execute_insert insert_row next_rowid get_next_rowid fill_defaults values_row write_insert
execute_atomically-insert_example =
    execute_atomically-insert plain_env 1 1 "users" [] (some nine_and_seven) [] two_users
      SkvsError.constraint_violation refl two_users-BelowCounter refl

execute_atomically-update_example :
    SameRows
      (execute_atomically plain_env 1 1
        (Statement.update (TableFactor.table "users" none) to_nine none)
        []
        two_users).1.dbs
      two_users.dbs
unfolding get_triggers get_in put_in lookup insert remove new_with_config execute_atomically
    execute_single_statement get_schema begin get_table_store for_each validate_constraints
    check_not_null check_unique value_exists_elsewhere exists_in value_eq check_groups
    check_foreign_keys check_columns check_table eval eval_literal parse_i64 fire_triggers
    store_insert journal record_op update_indexes update_each get_fts_table sync_fts_index
    execute_update update_row selected assign count_placeholders write_update sync_fts_index_change
execute_atomically-update_example =
    execute_atomically-update plain_env 1 1 "users" none to_nine none [] two_users
      SkvsError.constraint_violation refl two_users-DistinctRows refl

rollback-delete_example :
    SameRows
      (rollback plain_externs
        (begin plain_externs 1 two_users).0
        (execute_single_statement plain_env 1 1
          (Statement.delete [] (TableFactor.table "users" none ∷ []) none)
          []
          (some (begin plain_externs 1 two_users).0)
          (begin plain_externs 1 two_users).1).1).1.dbs
      two_users.dbs
unfolding get_triggers get_in lookup new_with_config insert
rollback-delete_example =
    rollback-delete plain_env 1 1 "users" none [] none [] two_users refl two_users-DistinctRows
