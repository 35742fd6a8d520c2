-- ===== src/Sql.antt =====
-- src/sql: statements, and their execution.
pub mod Ast
pub mod Env
pub mod Exec
pub mod Where
pub mod Write
pub mod Dml
pub mod Ddl
pub mod Select
pub mod Engine
