-- ===== src/Sql/Ddl/Alter/Renamed.antt =====
-- src/sql/ddl.rs, src/constraint.rs: the checks on a table that has been renamed.
use text.Mathlib.TextEquality.{eq_iff}
use skvs.Prelude.{
  ℕ, String, ◌&&◌, ◌≡◌, ◌≢◌, refl, none, some, [], ◌∷◌, nat_eq, string_eq, nat_beq_iff, ◌==◌, arith,
  if◌then◌else◌,
}
use skvs.Prelude.Map.{Map}
use skvs.Prelude.Nested.{get_in, del_in, get_in-put_in, get_in-del_in}
use skvs.Error.{ok}
use skvs.Value.{Row, RowId}
use skvs.Schema.{ColumnDef, TableSchema}
use skvs.State.{KvsState, Store, get_table_store, get_schema}
use skvs.Sql.Env.{Env}
use skvs.Sql.Ddl.Alter.{move_key, rename_table}
use skvs.Constraint.{value_exists_elsewhere, check_unique}

module _ {ℓ} {V : Type ℓ} where
  -- The entry of the old name, if there is one, stands under the new name only.
  pub get_in-move_key :
      (db : ℕ) (old new : String) (m : Map ℕ (Map String V)) (v : V) (d : ℕ) (name : String)
      → get_in db old m ≡ some v
      → get_in d name (move_key db old new m) ≡ (
          if d == db && name == new
          then some v
          else if d == db && name == old
          then none
          else get_in d name m)
  get_in-move_key db old new m v d name h = ground (
    arith,
    get_in-put_in db d new name v (del_in db old m),
    get_in-del_in db d old name m,
    nat_beq_iff db d,
    nat_beq_iff d db,
    eq_iff new name,
    eq_iff name new,
    eq_iff old name,
    eq_iff name old,
  )

module _ (x : Env) (db : ℕ) (old new : String) (s : KvsState) where
  abbrev renamed : KvsState
  renamed = (rename_table db old new s).1

  -- A table that is renamed keeps its rows and its schema, which then stand under the new name;
  -- the old name has neither, a table that had the new name is overwritten, and every table of a
  -- third name or of another database is as before.
  pub rename_table-moves :
      (schema : TableSchema) (store : Store) (d : ℕ) (name : String)
      → get_schema db old s ≡ some schema
      → get_table_store db old s ≡ some store
      → get_table_store d name renamed ≡ (
          if d == db && name == new
          then some store
          else if d == db && name == old
          then none
          else get_table_store d name s)
        × get_schema d name renamed ≡ (
            if d == db && name == new
            then some schema
            else if d == db && name == old
            then none
            else get_schema d name s)
  unfolding rename_table get_table_store get_schema
  rename_table-moves schema store d name h k = (
    get_in-move_key db old new s.dbs store d name k,
    get_in-move_key db old new s.schemas schema d name h,
  )

  -- After a table is renamed the schema that it keeps lets every row through its UNIQUE and
  -- PRIMARY KEY columns, whichever rows the table holds, if the schema has the old name.
  pub check_unique-renamed :
      (schema : TableSchema) (store : Store) (row : Row) (r : RowId) (cols : Map String ColumnDef)
      → get_schema db old s ≡ some schema
      → get_table_store db old s ≡ some store
      → schema.name ≡ old
      → old ≢ new
      → check_unique x renamed db schema row r cols ≡ ok tt
  unfolding check_unique value_exists_elsewhere
  check_unique-renamed schema store row r [] h k n e = refl
  check_unique-renamed schema store row r ((c, def) ∷ cols) h k n e = ground (
    arith,
    check_unique-renamed schema store row r cols h k n e,
    (rename_table-moves schema store db old h k).0,
    nat_beq_iff db db,
    eq_iff old new,
    eq_iff old old,
  )
