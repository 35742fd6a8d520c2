-- ===== src/Expr/Ast.antt =====
-- The expression tree of the `sqlparser` crate, as far as src/expr.rs and src/sql match on it:
-- every other form is `other`, with its printed text. A CASE holds its conditions and results
-- zipped (the parser gives as many of each), and identifiers hold their `value`.
use skvs.Prelude.{String, Bool, List}

pub data SqlValue : Type 0 where
  number : String → SqlValue
  single_quoted_string : String → SqlValue
  double_quoted_string : String → SqlValue
  null : SqlValue
  boolean : Bool → SqlValue
  placeholder : SqlValue
  other : SqlValue

pub data UnaryOperator : Type 0 where
  minus plus not other : UnaryOperator

pub data BinaryOperator : Type 0 where
  and or eq not_eq gt lt gt_eq lt_eq string_concat plus minus multiply divide modulo other :
      BinaryOperator

mutual
  pub data Expr : Type 0 where
    identifier : String → Expr
    compound_identifier : List String → Expr
    value : SqlValue → Expr
    nested : Expr → Expr
    unary_op : UnaryOperator → Expr → Expr
    binary_op : Expr → BinaryOperator → Expr → Expr
    is_null : Expr → Expr
    is_not_null : Expr → Expr
    between : Expr → Bool → Expr → Expr → Expr
    in_list : Expr → Args → Bool → Expr
    like : Bool → Expr → Expr → Expr
    ilike : Bool → Expr → Expr → Expr
    case : OptExpr → Whens → OptExpr → Expr
    function : String → Bool → Args → Expr
    other : String → Expr

  -- Function arguments, named or not, and the items of an IN list (all `arg`).
  pub data Args : Type 0 where
    no_args : Args
    arg : Expr → Args → Args
    named : String → Expr → Args → Args
    wildcard : Args → Args
    other_arg : Args → Args

  pub data Whens : Type 0 where
    no_whens : Whens
    when : Expr → Expr → Whens → Whens

  pub data OptExpr : Type 0 where
    absent : OptExpr
    present : Expr → OptExpr
