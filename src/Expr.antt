-- ===== src/Expr.antt =====
-- src/expr.rs: the expressions of the SQL parser that the engine evaluates, and the evaluator.
pub mod Ast
pub mod Like
pub mod Arithmetic
pub mod Function
pub mod Eval
