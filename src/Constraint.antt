-- ===== src/Constraint.antt =====
-- src/constraint.rs: the constraints that a row has to meet before it is written.
pub mod Sound
use Prim.Native.String.{◌++◌ as append}
use skvs.Prelude.{
  ℕ, String, Bool, true, false, not, ◌&&◌, ◌||◌, Option, none, some, List, [], ◌∷◌, any, all, find,
  first, unwrap_or, ◌==◌, nat_eq, string_eq, bytes_eq, if◌then◌else◌,
}
use skvs.Prelude.Map.{Map, lookup}
use skvs.Error.{SkvsError, Result, ok, err, ◌>>=◌}
use skvs.Value
use skvs.Value.{Value, Row, RowId, is_null, value_eq, truthy}
use skvs.Schema.{ColumnDef, TableSchema, UniqueGroup, ForeignKeyDef, IndexDef}
use skvs.Index.{lookup_index}
use skvs.State.{KvsState, Store, get_table_store}
use skvs.Expr.Ast.{Expr}
use skvs.Expr.Eval.{eval}
use skvs.Sql.Ast.{Statement, Query, SetExpr, Select, SelectItem}
use skvs.Sql.Env.{Env}

infixl 5 ◌>>◌
abbrev ◌>>◌ : Result (Unit {0}) → Result (Unit {0}) → Result (Unit {0})
m >> n = m >>= λ _. n

abbrev pub violation : Result (Unit {0})
violation = err SkvsError.constraint_violation

abbrev pub guard : Bool → Result (Unit {0})
guard true = ok tt
guard false = violation

-- `row.get(c)` is missing or NULL.
abbrev pub missing_or_null : Option Value → Bool
missing_or_null none = true
missing_or_null (some v) = is_null v

-- The index on exactly this one column, if there is one.
abbrev pub single_column : String → IndexDef → Bool
single_column col i = elim i.columns [
  | [] ↦ false
  | c ∷ cs ↦ elim cs [ [] ↦ c == col | _ ∷ _ ↦ false ]
]

-- NOT NULL
unfoldable pub check_not_null : Row → Map String ColumnDef → Result (Unit {0})
check_not_null row [] = ok tt
check_not_null row ((name, def) ∷ rest) =
    if def.not_null && missing_or_null (lookup name row) then violation else check_not_null row rest

module _ (x : Env) (s : KvsState) (db : ℕ) where
  -- `entry.value().get(c) == Some(v)`
  abbrev pub has_value : String → Value → Row → Bool
  has_value c v row = elim (lookup c row) [ none ↦ false | some w ↦ value_eq x.externs w v ]

  abbrev pub has_values : List String → List Value → Row → Bool
  has_values (c ∷ cs) (v ∷ vs) row = has_value c v row && has_values cs vs row
  has_values _ _ row = true

  unfoldable pub exists_in : List String → List Value → RowId → Store → Bool
  exists_in columns values exclude [] = false
  exists_in columns values exclude ((r, row) ∷ rest) =
      (not (r == exclude) && has_values columns values row) || exists_in columns values exclude rest

  -- A single column with an index is looked up there instead.
  abbrev pub index_for : TableSchema → List String → List Value → Option (IndexDef × Value)
  index_for schema (col ∷ []) (v ∷ _) = elim (find (single_column col) schema.indices) [
    | none ↦ none
    | some i ↦ some (i, v)
  ]
  index_for schema _ _ = none

  unfoldable pub value_exists_elsewhere : TableSchema → List String → List Value → RowId → Bool
  value_exists_elsewhere schema columns values exclude = elim (get_table_store db schema.name s) [
    | none ↦ false
    | some store ↦ elim (index_for schema columns values) [
      | some (i, v) ↦
          any (λ r. not (r == exclude)) (lookup_index x.externs db schema.name i.name v s)
      | none ↦ exists_in columns values exclude store
    ]
  ]

  -- Column-level UNIQUE and PRIMARY KEY
  abbrev clashes : TableSchema → String → Option Value → RowId → Bool
  clashes schema name none r = false
  clashes schema name (some v) r =
      not (is_null v) && value_exists_elsewhere schema (name ∷ []) (v ∷ []) r

  unfoldable pub check_unique : TableSchema → Row → RowId → Map String ColumnDef → Result (Unit {0})
  check_unique schema row r [] = ok tt
  check_unique schema row r ((name, def) ∷ rest) =
      if (def.unique || def.primary_key) && clashes schema name (lookup name row) r
      then violation
      else check_unique schema row r rest

  -- Table-level groups
  abbrev group_values : Row → List String → List Value
  group_values row [] = []
  group_values row (c ∷ cs) = unwrap_or (lookup c row) Value.null ∷ group_values row cs

  unfoldable pub check_groups : TableSchema → Row → RowId → List UniqueGroup → Result (Unit {0})
  check_groups schema row r [] = ok tt
  check_groups schema row r (g ∷ rest) =
      let vals = group_values row g.columns in
      if g.is_primary && any is_null vals
      then violation
      else if any is_null vals
      then check_groups schema row r rest
      else if value_exists_elsewhere schema g.columns vals r
      then violation
      else check_groups schema row r rest

  -- FOREIGN KEY: whether the row is refused by one of them.
  abbrev referenced : String → Value → Store → Bool
  referenced col v [] = false
  referenced col v ((r, row) ∷ rest) = has_value col v row || referenced col v rest

  abbrev dangling : ForeignKeyDef → Value → Bool
  dangling fk v = not (is_null v) && elim (get_table_store db fk.ref_table s) [
    | none ↦ false
    | some store ↦ not (referenced fk.ref_column v store)
  ]

  unfoldable pub check_foreign_keys : Row → List ForeignKeyDef → Result (Unit {0})
  check_foreign_keys row [] = ok tt
  check_foreign_keys row (fk ∷ rest) =
      if not (fk.column == "")
        && elim (lookup fk.column row) [ none ↦ false | some v ↦ dangling fk v ]
      then violation
      else check_foreign_keys row rest

  -- CHECK: the text is parsed again as the projection of a SELECT; what cannot be read back holds.
  abbrev projected : List Statement → Option Expr
  projected (Statement.query q ∷ _) = elim q.body [
    | SetExpr.select sel ↦ elim (first sel.projection) [
      | some (SelectItem.unnamed e) ↦ some e
      | _ ↦ none
    ]
    | _ ↦ none
  ]
  projected _ = none

  unfoldable pub eval_check : Row → String → Bool
  eval_check row check_sql = elim (x.parse_sql (append "SELECT " check_sql)) [
    | none ↦ true
    | some stmts ↦ elim (projected stmts) [
      | none ↦ true
      | some e ↦ truthy x.externs (eval x.externs (some row) [] e 0).0
    ]
  ]

  unfoldable pub check_columns : Row → Map String ColumnDef → Result (Unit {0})
  check_columns row [] = ok tt
  check_columns row ((name, def) ∷ rest) =
      if elim def.check_expr [ none ↦ true | some c ↦ eval_check row c ]
      then check_columns row rest
      else violation

  unfoldable pub check_table : Row → List String → Result (Unit {0})
  check_table row [] = ok tt
  check_table row (c ∷ rest) = if eval_check row c then check_table row rest else violation

  unfoldable pub validate_constraints : TableSchema → Row → RowId → Result (Unit {0})
  validate_constraints schema row r =
      check_not_null row schema.columns
      >> check_unique schema row r schema.columns
      >> check_groups schema row r schema.unique_groups
      >> check_foreign_keys row schema.foreign_keys
      >> check_columns row schema.columns
      >> check_table row schema.table_checks
