-- ===== src/Sql/Ddl/Table.antt =====
-- src/sql/ddl.rs: CREATE TABLE, CREATE VIRTUAL TABLE and DROP TABLE.
use skvs.Prelude.{
  ℕ, String, Bool, true, false, not, ◌&&◌, ◌||◌, Option, none, some, List, [], ◌∷◌, ◌++◌, first,
  unwrap_or, is_some, ◌==◌, nat_eq, string_eq, if◌then◌else◌,
}
use text.Mathlib.Text.{find?}
use skvs.Prelude.Map.{Map, lookup, insert}
use skvs.Prelude.Nested.{get_in, put_in, del_in}
use skvs.Error.{SkvsError, ok, err}
use skvs.Text.{join}
use skvs.Schema.{ColumnDef, DataType, FkAction, ForeignKeyDef, TableSchema, UniqueGroup}
use skvs.Fts.{new_table}
use skvs.State.{KvsState, register_fts_table}
use skvs.Expr.Eval.{eval}
use skvs.Sql.Ast.{
  SqlDataType, ColumnOption, SqlColumnDef, ReferentialAction, SqlForeignKey, TableConstraint,
  CreateTable, CreateVirtualTable,
}
use skvs.Sql.Env.{Env, QueryResult, Exec}
use skvs.Sql.Dml.{empty_result}

abbrev pub column_type : SqlDataType → DataType
column_type SqlDataType.int = DataType.integer
column_type SqlDataType.integer = DataType.integer
column_type SqlDataType.float = DataType.real
column_type SqlDataType.double = DataType.real
column_type SqlDataType.text = DataType.text
column_type SqlDataType.string = DataType.text
column_type SqlDataType.varchar = DataType.text
column_type SqlDataType.blob = DataType.blob
column_type SqlDataType.other = DataType.blob

unfoldable pub parse_fk_action : Option ReferentialAction → FkAction
parse_fk_action (some ReferentialAction.cascade) = FkAction.cascade
parse_fk_action (some ReferentialAction.set_null) = FkAction.set_null
parse_fk_action (some ReferentialAction.restrict) = FkAction.restrict
parse_fk_action (some ReferentialAction.set_default) = FkAction.set_default
parse_fk_action _ = FkAction.no_action

module _ (x : Env) where
  abbrev says_auto : List String → Bool
  says_auto tokens =
      let joined = x.externs.to_uppercase (join " " tokens) in
      is_some (find? joined "AUTOINCREMENT") || is_some (find? joined "AUTO_INCREMENT")

  abbrev apply_option : ColumnOption → ColumnDef → ColumnDef
  apply_option ColumnOption.not_null c = record c { not_null = true }
  apply_option (ColumnOption.unique true) c = record c {
    unique = true;
    primary_key = true;
    not_null = true;
  }
  apply_option (ColumnOption.unique false) c = record c { unique = true }
  apply_option (ColumnOption.default e) c = record c {
    default = some (eval x.externs none [] e 0).0;
  }
  apply_option (ColumnOption.check e) c = record c { check_expr = some (x.expr_to_string e) }
  apply_option (ColumnOption.dialect_specific tokens) c =
      if says_auto tokens then record c { auto_increment = true } else c
  apply_option ColumnOption.other c = c

  abbrev apply_options : List ColumnOption → ColumnDef → ColumnDef
  apply_options [] c = c
  apply_options (o ∷ os) c = apply_options os (apply_option o c)

  unfoldable pub parse_column_def : SqlColumnDef → ColumnDef
  parse_column_def col = apply_options col.options (record {
    name = col.name;
    data_type = column_type col.data_type;
    primary_key = false;
    auto_increment = false;
    not_null = false;
    default = none;
    unique = false;
    check_expr = none;
  })

  -- What CREATE TABLE collects from the column list and the constraints.
  pub record Parts : Type 0 where
    pub columns : Map String ColumnDef
    pub primary_keys : List String
    pub foreign_keys : List ForeignKeyDef
    pub unique_groups : List UniqueGroup
    pub table_checks : List String

  abbrev add_columns : List SqlColumnDef → Parts → Parts
  add_columns [] p = p
  add_columns (c ∷ cs) p =
      let def = parse_column_def c in
      add_columns cs (record p {
        columns = insert def.name def p.columns;
        primary_keys =
            if def.primary_key then p.primary_keys ++ (def.name ∷ []) else p.primary_keys;
      })

  -- `if let Some(cd) = columns.get_mut(c)`, for each column of a group.
  abbrev mark : (ColumnDef → ColumnDef) → List String → Map String ColumnDef → Map String ColumnDef
  mark f [] m = m
  mark f (c ∷ cs) m = mark f cs (elim (lookup c m) [ none ↦ m | some def ↦ insert c (f def) m ])

  abbrev first_key : List String → List String
  first_key [] = []
  first_key (c ∷ cs) = c ∷ []

  abbrev add_unique : List String → Bool → Parts → Parts
  add_unique cols true p = record p {
    columns = mark (λ d. record d { primary_key = true; not_null = true }) cols p.columns;
    primary_keys = p.primary_keys ++ first_key cols;
    unique_groups = p.unique_groups ++ (record { columns = cols; is_primary = true } ∷ []);
  }
  add_unique cols false p = record p {
    columns = mark (λ d. record d { unique = true }) cols p.columns;
    unique_groups = p.unique_groups ++ (record { columns = cols; is_primary = false } ∷ []);
  }

  abbrev foreign_key_of : SqlForeignKey → ForeignKeyDef
  foreign_key_of fk = record {
    column = unwrap_or (first fk.columns) "";
    ref_table = fk.foreign_table;
    ref_column = unwrap_or (first fk.referred_columns) "";
    on_delete = parse_fk_action fk.on_delete;
    on_update = parse_fk_action fk.on_update;
  }

  abbrev add_constraint : TableConstraint → Parts → Parts
  add_constraint (TableConstraint.unique cols primary) p = add_unique cols primary p
  add_constraint (TableConstraint.foreign_key fk) p = record p {
    foreign_keys = p.foreign_keys ++ (foreign_key_of fk ∷ []);
  }
  add_constraint (TableConstraint.check e) p = record p {
    table_checks = p.table_checks ++ (x.expr_to_string e ∷ []);
  }
  add_constraint TableConstraint.other p = p

  abbrev add_constraints : List TableConstraint → Parts → Parts
  add_constraints [] p = p
  add_constraints (c ∷ cs) p = add_constraints cs (add_constraint c p)

  unfoldable pub schema_of : CreateTable → TableSchema
  schema_of t =
      let p = add_constraints t.constraints (
        add_columns t.columns (record {
          columns = [];
          primary_keys = [];
          foreign_keys = [];
          unique_groups = [];
          table_checks = [];
        })) in
      record {
        name = t.name;
        columns = p.columns;
        rowid_column = first p.primary_keys;
        foreign_keys = p.foreign_keys;
        indices = [];
        triggers = [];
        unique_groups = p.unique_groups;
        table_checks = p.table_checks;
        fts5_content_column = none;
      }

-- A schema with an empty table and a counter at 1.
abbrev pub add_table : ℕ → String → TableSchema → KvsState → KvsState
add_table db name schema s = record s {
  schemas = put_in db name schema s.schemas;
  dbs = put_in db name [] s.dbs;
  rowid_generators = put_in db name 1 s.rowid_generators;
}

abbrev exists_already : Bool → Exec QueryResult
exists_already true s = (ok empty_result, s)
exists_already false s = (err SkvsError.schema, s)

unfoldable pub create_table : Env → ℕ → CreateTable → Exec QueryResult
create_table x db t s =
    if is_some (get_in db t.name s.schemas)
    then exists_already t.if_not_exists s
    else (ok empty_result, add_table db t.name (schema_of x t) s)

abbrev text_columns : List String → Map String ColumnDef → Map String ColumnDef
text_columns [] m = m
text_columns (c ∷ cs) m = text_columns cs (
    insert c
      (record {
        name = c;
        data_type = DataType.text;
        primary_key = false;
        auto_increment = false;
        not_null = false;
        default = none;
        unique = false;
        check_expr = none;
      })
      m)

unfoldable pub virtual_schema : CreateVirtualTable → String → TableSchema
virtual_schema t content_column = record {
  name = t.name;
  columns = text_columns t.module_args [];
  rowid_column = none;
  foreign_keys = [];
  indices = [];
  triggers = [];
  unique_groups = [];
  table_checks = [];
  fts5_content_column = some content_column;
}

unfoldable pub create_virtual_table : Env → ℕ → CreateVirtualTable → Exec QueryResult
create_virtual_table x db t s =
    let content_column = unwrap_or (first t.module_args) "content" in
    if not (x.externs.to_lowercase t.module_name == "fts5")
    then (err SkvsError.unsupported, s)
    else if is_some (get_in db t.name s.schemas)
    then exists_already t.if_not_exists s
    else (
      ok empty_result,
      register_fts_table db t.name (new_table t.name content_column)
          (add_table db t.name (virtual_schema t content_column) s),
    )

-- The indexes of a dropped table stay behind.
abbrev forget_table : ℕ → String → KvsState → KvsState
forget_table db table s = record s {
  schemas = del_in db table s.schemas;
  dbs = del_in db table s.dbs;
  rowid_generators = del_in db table s.rowid_generators;
  triggers = del_in db table s.triggers;
  fts_tables = del_in db table s.fts_tables;
  views = del_in db table s.views;
}

unfoldable pub drop_table : ℕ → List String → Bool → Exec QueryResult
drop_table db [] if_exists s = (ok empty_result, s)
drop_table db (table ∷ rest) if_exists s =
    let others = drop_table db rest if_exists (forget_table db table s) in
    if not (is_some (get_in db table s.schemas)) && not if_exists
    then (err SkvsError.schema, s)
    else others
