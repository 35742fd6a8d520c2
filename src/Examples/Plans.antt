-- ===== src/Examples/Plans.antt =====
-- Queries and writes on a table of users with an index.
use mathlib.Core.List.{Memᴰ, Perm}
use skvs.Prelude.{
  String, true, ◌≡◌, refl, sym, subst, none, some, List, [], ◌∷◌, nat_eq, string_eq, name_eq, arith,
}
use skvs.Prelude.Int.{pos}
use skvs.Prelude.Map.{lookup}
use skvs.Prelude.Nested.{get_in}
use skvs.Value.{Value, Row, RowId}
use skvs.Value.Order.{is_plain}
use skvs.Schema.{TableSchema, IndexDef}
use skvs.State.{
  KvsState, Store, get_schema, get_next_rowid, get_or_create_index_store, new_with_config,
}
use skvs.Index.{contains_id}
use skvs.Index.Ids.{same}
use skvs.Index.Mirror.{Mirrors, PlainRow}
use skvs.Expr.Ast.{Expr, SqlValue, BinaryOperator}
use skvs.Expr.Eval.{eval, eval_literal, in_range}
use skvs.Sql.Ast.{OrderByExpr}
use skvs.Sql.Where.{matches}
use skvs.Error.{ok}
use skvs.Sql.Select.Scan.{indexed_ids, tagged}
use skvs.Sql.Select.Scan.Compares.{where_clause}
use skvs.Sql.Select.Scan.Exact.{let_through, indexed_ids-let_through}
use skvs.Sql.Select.Scan.Between.{between_placeholders, indexed_ids-between}
use skvs.Sql.Select.Shape.{apply_order_by}
use skvs.Sql.Select.Shape.Sorted.{before_by, apply_order_by-sorts}
use skvs.Sql.Select.Shape.Pass.{sorted_by}
use skvs.Sql.Write.Change.{Synced, added}
use skvs.Sql.Write.Indexed.{perform, perform-Synced}
use skvs.Sql.Write.Returned.{PlainWrites, unwritten, written, aside, rollback-Synced}
use skvs.Transaction.{begin, rollback}
use skvs.Examples.Setting.{plain_externs, plain_env, users, by_id, row_of, one_user}
use skvs.Examples.Rows.{row_one, index_one, Mirrors-none, Mirrors-one, plain_row}

abbrev indexed_users : TableSchema
indexed_users = record users { indices = by_id ∷ [] }

-- User 7 in the table and in the index.
abbrev indexed_state : KvsState
indexed_state = record one_user {
  schemas = (1, ("users", indexed_users) ∷ []) ∷ [];
  indexes = (1, (("users", "by_id"), index_one) ∷ []) ∷ [];
}

abbrev placeholder : Expr
placeholder = Expr.value SqlValue.placeholder

abbrev params : List Value
params = Value.integer (pos 7) ∷ Value.integer (pos 9) ∷ []

indexed_ids-let_through_example :
    (ids : List RowId) × (indexed_ids plain_env 1 params indexed_state "users"
        (where_clause plain_env 1 params indexed_state "id" placeholder BinaryOperator.eq)
      ≡ some (ok ids))
    × ((r : RowId)
        → contains_id r ids
          ≡ let_through plain_env 1 params indexed_state "id" placeholder row_one BinaryOperator.eq
              r)
unfolding get_schema get_in lookup get_or_create_index_store eval eval_literal
indexed_ids-let_through_example =
    indexed_ids-let_through plain_env 1 params indexed_state "id" placeholder "users" by_id row_one
      refl refl Mirrors-one (λ r row h. (Value.integer (pos 7), ground (arith, h), refl))
      (λ row. refl) refl refl BinaryOperator.eq refl

indexed_ids-between_example :
    (ids : List RowId) × (indexed_ids plain_env 1 params indexed_state "users"
        (between_placeholders "id")
      ≡ some (ok ids))
    × ((r : RowId) (row : Row) (w : Value)
        → lookup r row_one ≡ some row
        → lookup "id" row ≡ some w
        → is_plain w ≡ true
        → (contains_id r ids ≡ same plain_externs w (Value.integer (pos 7)))
          × (matches plain_externs indexed_state 1
                (tagged plain_env 1 params r row)
                params
                (between_placeholders "id")
                0
              ≡ in_range plain_externs w (Value.integer (pos 7)) (Value.integer (pos 9))))
unfolding get_schema get_in lookup get_or_create_index_store skvs.Value.compare_values
indexed_ids-between_example =
    indexed_ids-between plain_env 1 indexed_state "users" "id" by_id row_one (Value.integer (pos 7))
      (Value.integer (pos 9)) [] refl Mirrors-one refl refl

-- The table and its index before the first user.
abbrev no_users : KvsState
no_users = record indexed_state { dbs = (1, ("users", []) ∷ []) ∷ []; indexes = [] }

the_schema :
    (t : String) (schema : TableSchema)
    → get_schema 1 t no_users ≡ some schema
    → schema ≡ indexed_users
unfolding get_schema get_in lookup
the_schema t schema h = ground (arith, h)

the_store : (t : String) (store : Store) → get_in 1 t no_users.dbs ≡ some store → store ≡ []
unfolding get_in lookup
the_store t store h = ground (arith, h)

the_index : (idx : IndexDef) → Memᴰ idx indexed_users.indices → idx ≡ by_id
the_index idx (Memᴰ.head e) = e
the_index idx (Memᴰ.tail m) = elim m [ ]

no_users-Synced : Synced plain_externs 1 no_users
unfolding get_or_create_index_store get_in lookup
no_users-Synced = record {
  apart = λ t schema e. rw (the_schema t schema e) refl;
  plain = λ t schema store idx e d m r row h. absurd (ground (arith, h, the_store t store d));
  mirrors = λ t schema store idx e d m.
      let here = subst (λ c. Memᴰ idx c.indices) (the_schema t schema e) m in
      subst (λ i. Mirrors plain_externs i store []) (sym (the_index idx here))
        (subst (λ n. Mirrors plain_externs by_id n []) (sym (the_store t store d)) Mirrors-none);
}

plain_users :
    (schema : TableSchema) (idx : IndexDef)
    → get_schema 1 "users" no_users ≡ some schema
    → Memᴰ idx schema.indices
    → PlainRow plain_externs idx (row_of 7)
plain_users schema idx e m =
    let here = subst (λ c. Memᴰ idx c.indices) (the_schema "users" schema e) m in
    subst (λ i. PlainRow plain_externs i (row_of 7)) (sym (the_index idx here)) (plain_row 7)

perform-Synced_example :
    Synced plain_externs 1 (perform plain_externs 1 none "users" 1 (added (row_of 7)) no_users)
unfolding get_in lookup
perform-Synced_example =
    perform-Synced plain_externs 1 none "users" 1 (added (row_of 7)) [] no_users no_users-Synced
      refl refl plain_users

-- Two users in the wrong order.
abbrev by_number : List OrderByExpr
by_number = record { expr = Expr.identifier "id"; asc = none } ∷ []

abbrev out_of_order : List Row
out_of_order = row_of 8 ∷ row_of 7 ∷ []

apply_order_by-sorts_example :
    Perm (apply_order_by plain_env by_number out_of_order) out_of_order
    × (sorted_by (before_by plain_env by_number) (apply_order_by plain_env by_number out_of_order)
        ≡ true)
unfolding eval lookup
apply_order_by-sorts_example = apply_order_by-sorts plain_env by_number out_of_order refl

-- A transaction that inserts user 7.
abbrev begun : KvsState
begun = (begin plain_externs 1 no_users).1

-- The INSERT takes its row id first.
abbrev numbered : KvsState
numbered = (get_next_rowid 1 "users" begun).1

abbrev with_user : KvsState
with_user = perform plain_externs 1 (some 1) "users" 1 (added (row_of 7)) numbered

one-PlainWrites : PlainWrites plain_externs 1 1 begun with_user
unfolding begin get_next_rowid get_schema get_in lookup
one-PlainWrites =
    written numbered "users" 1 (added (row_of 7)) []
      (aside begun numbered unwritten refl refl refl refl) refl refl plain_users

rollback-Synced_example : Synced plain_externs 1 (rollback plain_externs 1 with_user).1
unfolding begin new_with_config
rollback-Synced_example =
    rollback-Synced plain_externs 1 no_users with_user no_users-Synced one-PlainWrites
