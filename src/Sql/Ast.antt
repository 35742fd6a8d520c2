-- ===== src/Sql/Ast.antt =====
-- The statements of the `sqlparser` crate, as far as src/sql matches on them; every other form is
-- `other`. Names are the strings that `to_string` and `value` give.
use skvs.Prelude.{String, Bool, Option, List}
use skvs.Expr.Ast.{Expr}

pub data SelectItem : Type 0 where
  unnamed : Expr → SelectItem
  with_alias : Expr → String → SelectItem
  wildcard qualified_wildcard : SelectItem

-- A table with its alias; any other relation with its text.
pub data TableFactor : Type 0 where
  table : String → Option String → TableFactor
  other : String → TableFactor

pub data JoinConstraint : Type 0 where
  on : Expr → JoinConstraint
  using : List String → JoinConstraint
  natural unconstrained : JoinConstraint

pub data JoinOperator : Type 0 where
  inner left_outer right_outer full_outer : JoinConstraint → JoinOperator
  cross_join other : JoinOperator

pub record Join : Type 0 where
  pub relation : TableFactor
  pub join_operator : JoinOperator

pub record TableWithJoins : Type 0 where
  pub relation : TableFactor
  pub joins : List Join

pub data GroupByExpr : Type 0 where
  all : GroupByExpr
  expressions : List Expr → GroupByExpr

pub record Select : Type 0 where
  pub distinct : Bool
  pub projection : List SelectItem
  pub from : List TableWithJoins
  pub selection : Option Expr
  pub group_by : GroupByExpr

pub data SetExpr : Type 0 where
  select : Select → SetExpr
  values : List (List Expr) → SetExpr
  other : SetExpr

pub record OrderByExpr : Type 0 where
  pub expr : Expr
  pub asc : Option Bool

pub record Query : Type 0 where
  pub body : SetExpr
  pub order_by : List OrderByExpr
  pub limit : Option Expr
  pub offset : Option Expr

pub data SqlDataType : Type 0 where
  int integer float double text string varchar blob other : SqlDataType

pub data ColumnOption : Type 0 where
  not_null : ColumnOption
  unique : Bool → ColumnOption
  default : Expr → ColumnOption
  check : Expr → ColumnOption
  dialect_specific : List String → ColumnOption
  other : ColumnOption

pub record SqlColumnDef : Type 0 where
  pub name : String
  pub data_type : SqlDataType
  pub options : List ColumnOption

pub data ReferentialAction : Type 0 where
  restrict cascade set_null no_action set_default : ReferentialAction

pub record SqlForeignKey : Type 0 where
  pub columns : List String
  pub foreign_table : String
  pub referred_columns : List String
  pub on_delete : Option ReferentialAction
  pub on_update : Option ReferentialAction

pub data TableConstraint : Type 0 where
  unique : List String → Bool → TableConstraint
  foreign_key : SqlForeignKey → TableConstraint
  check : Expr → TableConstraint
  other : TableConstraint

pub data AlterTableOperation : Type 0 where
  add_column : SqlColumnDef → AlterTableOperation
  drop_column : String → Bool → AlterTableOperation
  rename_column : String → String → AlterTableOperation
  rename_table : String → AlterTableOperation
  other : AlterTableOperation

pub data ObjectType : Type 0 where
  table index view other : ObjectType

-- `SET a.b = value`: the parts of the target and the value.
pub record Assignment : Type 0 where
  pub id : List String
  pub value : Expr

pub record CreateTable : Type 0 where
  pub name : String
  pub columns : List SqlColumnDef
  pub constraints : List TableConstraint
  pub if_not_exists : Bool

pub record CreateIndex : Type 0 where
  pub name : Option String
  pub table_name : String
  pub columns : List Expr
  pub unique : Bool
  pub if_not_exists : Bool

pub record CreateVirtualTable : Type 0 where
  pub name : String
  pub if_not_exists : Bool
  pub module_name : String
  pub module_args : List String

pub data Statement : Type 0 where
  query : Query → Statement
  -- table, columns, source
  insert : String → List String → Option Query → Statement
  -- table, assignments, selection
  update : TableFactor → List Assignment → Option Expr → Statement
  -- tables, from, selection
  delete : List String → List TableFactor → Option Expr → Statement
  create_table : CreateTable → Statement
  -- table, if_exists, operations
  alter_table : String → Bool → List AlterTableOperation → Statement
  create_index : CreateIndex → Statement
  create_view : String → Query → Statement
  create_virtual_table : CreateVirtualTable → Statement
  -- kind, names, if_exists
  drop : ObjectType → List String → Bool → Statement
  start_transaction commit rollback : Statement
  other : Statement
