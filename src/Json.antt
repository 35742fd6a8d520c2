-- ===== src/Json.antt =====
-- src/json.rs: the JSON functions of SQL, over the JSON values of the serde_json crate.
pub mod Tree
pub mod Convert
pub mod Path
