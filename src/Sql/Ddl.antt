-- ===== src/Sql/Ddl.antt =====
-- src/sql/ddl.rs: the statements that change schemas.
pub mod Table
pub mod Alter
pub mod Object
pub mod CreateTrigger
