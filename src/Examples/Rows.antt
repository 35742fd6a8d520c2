-- ===== src/Examples/Rows.antt =====
-- Transactions, indexes and constraints on a table of users.
use package.text.Mathlib.TextEquality.{eq_iff}
use mathlib.Core.List.{Memᴰ}
use skvs.Prelude.{ℕ, false, ◌≡◌, refl, some, [], ◌∷◌, nat_eq, string_eq, arith}
use skvs.Prelude.Int.{pos}
use skvs.Prelude.Map.{lookup, insert}
use skvs.Prelude.Nested.{get_in, put_in}
use skvs.Error.{SkvsError, ok, err}
use skvs.Value.{Value, is_null, value_eq}
use skvs.State.{
  KvsState, TxnEntry, insert_op, new_with_config, Store, get_table_store, get_schema, store_insert,
  get_fts_table,
}
use skvs.State.Rows.{SameRows, row_at}
use skvs.Index.{index_value, add_row, remove_row, update_indexes, update_each}
use skvs.Index.Mirror.{Mirrors, PlainRow, add_row-Mirrors, update_row-Mirrors}
use skvs.BTree.{IndexStore, tree_get}
use skvs.BTree.Ordered.{sorted_nil}
use skvs.Transaction.{begin, rollback, journal, record_op, sync_fts_index}
use skvs.Transaction.Ended.{by_commit, by_rollback, end, end-end}
use skvs.Constraint.{
  validate_constraints, has_value, check_unique, check_not_null, value_exists_elsewhere, exists_in,
  check_groups, check_foreign_keys, check_columns, check_table,
}
use skvs.Constraint.Sound.{validate_constraints-not_null, validate_constraints-unique}
use skvs.Sql.Write.{write_insert, write_update}
use skvs.Transaction.Elsewhere.{rollback-elsewhere}
use skvs.Sql.Write.Restore.{Writes, start, inserted, updated, rollback-begin}
use skvs.Sql.Ddl.Alter.{rename_table}
use skvs.Sql.Ddl.Alter.Renamed.{rename_table-moves, check_unique-renamed}
use skvs.Examples.Setting.{plain_externs, plain_env, users, id_column, by_id, row_of, one_user}

-- Transaction 1 inserts user 2 and changes user 1.
abbrev begun : KvsState
begun = (begin plain_externs 1 one_user).1

abbrev with_second : KvsState
with_second = write_insert plain_externs 1 (some 1) "users" 2 (row_of 8) begun

abbrev with_changed : KvsState
with_changed = write_update plain_externs 1 (some 1) "users" 1 (row_of 7) (row_of 9) with_second

two-Writes : Writes plain_externs 1 1 begun with_changed
unfolding begin write_insert store_insert get_in lookup journal record_op update_indexes update_each
    sync_fts_index get_schema get_fts_table insert put_in new_with_config
two-Writes =
    updated with_second "users" 1 (row_of 7) (row_of 9)
      (inserted begun "users" 2 (row_of 8) start refl) refl

rollback-begin_example :
    (rollback plain_externs 1 with_changed).0 ≡ ok tt
    × SameRows (rollback plain_externs 1 with_changed).1.dbs one_user.dbs
unfolding begin new_with_config
rollback-begin_example = rollback-begin plain_externs 1 one_user with_changed two-Writes

-- Transaction 1, begun on database 1, inserts a user in database 2.
abbrev two_databases : KvsState
two_databases = record begun { dbs = (2, ("users", []) ∷ []) ∷ begun.dbs }

abbrev with_other : KvsState
with_other = write_insert plain_externs 2 (some 1) "users" 5 (row_of 8) two_databases

abbrev other_entry : TxnEntry
other_entry = record { db_id = 1; journal = insert_op "users" 5 ∷ [] }

rollback-elsewhere_example :
    (rollback plain_externs 1 with_other).0 ≡ ok tt
    × row_at 2 "users" 5 (rollback plain_externs 1 with_other).1 ≡ some (row_of 8)
unfolding begin write_insert store_insert get_in lookup journal record_op update_indexes update_each
    sync_fts_index get_schema get_fts_table insert put_in new_with_config
rollback-elsewhere_example =
    rollback-elsewhere plain_externs 1 2 "users" 5 other_entry with_other refl refl

end-end_example :
    end plain_externs by_commit 1 (end plain_externs by_rollback 1 with_changed).1
    ≡ (err SkvsError.transaction, (end plain_externs by_rollback 1 with_changed).1)
end-end_example = end-end plain_externs by_rollback by_commit 1 with_changed

-- An index on the id of the users.
abbrev pub row_one : Store
row_one = (1, row_of 7) ∷ []

pub plain_row : (n : ℕ) → PlainRow plain_externs by_id (row_of n)
unfolding index_value lookup
plain_row n v h = ground arith

-- The index and its table before user 1, and with user 1 and then user 1 changed.
pub Mirrors-none : Mirrors plain_externs by_id [] []
unfolding lookup tree_get
Mirrors-none = record { sorted = sorted_nil; listed = λ w q p. refl }

abbrev pub index_one : IndexStore
index_one = add_row plain_externs by_id (row_of 7) 1 []

add_row-Mirrors_example : Mirrors plain_externs by_id (insert 1 (row_of 7) []) index_one
unfolding lookup
add_row-Mirrors_example =
    add_row-Mirrors plain_externs by_id (row_of 7) 1 [] [] Mirrors-none (plain_row 7) refl

pub Mirrors-one : Mirrors plain_externs by_id row_one index_one
unfolding lookup insert
Mirrors-one = add_row-Mirrors plain_externs by_id (row_of 7) 1 [] [] Mirrors-none (plain_row 7) refl

update_row-Mirrors_example : Mirrors plain_externs by_id (insert 1 (row_of 9) row_one) (
    add_row plain_externs by_id
      (row_of 9)
      1
      (remove_row plain_externs by_id (row_of 7) 1 index_one))
unfolding lookup
update_row-Mirrors_example =
    update_row-Mirrors plain_externs by_id (row_of 7) (row_of 9) 1 row_one index_one Mirrors-one
      (plain_row 7) (plain_row 9) refl

-- A second user beside the first.
validate_constraints-not_null_example :
    (v : Value) × (lookup "id" (row_of 8) ≡ some v × is_null v ≡ false)
unfolding validate_constraints check_not_null lookup check_unique value_exists_elsewhere
    get_table_store get_in exists_in value_eq check_groups check_foreign_keys check_columns
    check_table
validate_constraints-not_null_example =
    validate_constraints-not_null plain_env one_user 1 users (row_of 8) 2 "id" id_column refl
      (Memᴰ.head refl) refl

validate_constraints-unique_example :
    has_value plain_env one_user 1 "id" (Value.integer (pos 8)) (row_of 7) ≡ false
unfolding validate_constraints check_not_null lookup check_unique value_exists_elsewhere
    get_table_store get_in exists_in value_eq check_groups check_foreign_keys check_columns
    check_table
validate_constraints-unique_example =
    validate_constraints-unique plain_env one_user 1 users (row_of 8) 2 "id" id_column
      (Value.integer (pos 8)) row_one 1 (row_of 7) refl (Memᴰ.head refl) refl refl refl refl refl
      (Memᴰ.head refl) (ground arith)

-- The table of users renamed to people.
rename_table-moves_example :
    get_table_store 1 "people" (rename_table 1 "users" "people" one_user).1 ≡ some row_one
    × get_schema 1 "people" (rename_table 1 "users" "people" one_user).1 ≡ some users
unfolding get_table_store get_schema get_in lookup
rename_table-moves_example =
    rename_table-moves plain_env 1 "users" "people" one_user users row_one 1 "people" refl refl

check_unique-renamed_example :
    check_unique plain_env
      (rename_table 1 "users" "people" one_user).1
      1
      users
      (row_of 7)
      2
      users.columns
    ≡ ok tt
unfolding get_table_store get_schema get_in lookup
check_unique-renamed_example =
    check_unique-renamed plain_env 1 "users" "people" one_user users row_one (row_of 7) 2
      users.columns refl refl refl (ground (arith, eq_iff "users" "people"))
