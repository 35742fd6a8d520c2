-- ===== src/Lib.antt =====
-- skvs: a key-value store with an SQL engine on top, in Rust (src/). This library models the program
-- on one state that is passed along, and proves what its parts promise.
--
-- The parts, and the files that model them:
-- - Value, Schema: src/schema.rs. `Value::compare` is `compare_values`, the derived `PartialEq` is
--   `value_eq`.
-- - Error: src/error.rs. Messages are dropped. `crash` stands for a panic and for the end of fuel.
-- - Expr (Ast, Arithmetic, Like, Function, Eval): src/expr.rs. `eval` returns its value and the index
--   of the next parameter, which the source keeps in `param_idx`.
-- - Json (Tree, Convert, Path): src/json.rs, and `from_json` and `to_json` of src/schema.rs.
-- - Fts: src/fts.rs. BTree, Index: src/index.rs.
-- - State: src/state.rs, the state that all parts share; State.Raw has the raw tables with the tier of
--   files behind them.
-- - Transaction: src/transaction.rs, with `journal` and `sync_fts_index` of src/sql/dml.rs.
-- - Constraint: src/constraint.rs. Trigger: src/trigger.rs. View: src/view.rs.
-- - Sql: src/sql. Sql.Write and Sql.Dml are src/sql/dml.rs, Sql.Ddl src/sql/ddl.rs, Sql.Select and
--   Sql.Where src/sql/select.rs, Sql.Engine src/sql/mod.rs.
-- - Wal.Batch: the writer of src/wal.rs and the receiver of src/replication.rs. Wal.Log: the bytes of
--   the log files. Wal.Snapshot: the snapshots of src/wal.rs.
-- - Config: src/config.rs. VirtualTable: src/virtual_table.rs.
-- - Api: the calls of src/lib.rs on a state. Process: its globals, with `init` and the same calls on
--   them, and the channel between the calls and the task of the log.
-- A call goes from Process to Api, and a raw one also to the channel of the log, which the task reads,
-- batches, writes and sends to the replica. A statement goes from Api to Sql.Engine, which
-- runs it on the state; a write checks the constraints, fires the triggers, which run
-- statements through the engine again, and changes the table, the journal of its transaction,
-- the indexes and the full-text index.
--
-- The proofs stand below the modules they are about, in files named for what they show:
-- Value.Order, BTree.Ordered, Index.Ids, Index.Mirror, Index.Named, Index.Range, Value.Equal,
-- State.Rows, State.Raw.Reads, Fts.Search, Expr.Like.Language, Expr.Eval.Offsets,
-- Constraint.Sound, Transaction.Frame, Transaction.Rollback,
-- Sql.Write.Restore, Sql.Dml.Inserting, Sql.Dml.Changing, Sql.Engine.Atomic, Sql.Ddl.Alter.Renamed,
-- Wal.Batch.Delivery, Sql.Write.Change, Sql.Write.Indexed, Sql.Write.Undone, Sql.Write.Returned,
-- State.Raw.Limit, Transaction.Ended, Sql.Dml.Untriggered, Transaction.Elsewhere,
-- Sql.Select.Scan.Compares, Sql.Select.Scan.Exact, Sql.Select.Scan.Between, Sql.Select.Shape.Pass,
-- Sql.Select.Shape.Sorted, Wal.Log.Framed, Wal.Log.Reread, Process.Delivered, Process.Settled,
-- Process.Started, Wal.Batch.Replay, Wal.Snapshot.Restored and Wal.Snapshot.Restart. Examples runs
-- each at a concrete input.
--
-- How the program is read:
-- - A map (DashMap, HashMap, IndexMap) is an association list in the order of insertion. Every call on
--   a concurrent map is one step, and statements run one after the other.
--   The eviction of a raw table takes its keys in the order of the DashMap, which is a parameter; a
--   scan of a table is in the order of insertion.
-- - `i64` is an integer brought back into range after each operation, `f64` a bit pattern whose
--   arithmetic is a parameter. Row ids are counted from 1 without an end.
--   The one remainder of i64s that panics (the least i64 by -1) is a parameter of which nothing is
--   assumed; a range of an index whose ends cross is the error `crash`.
-- - What the program takes from outside is a parameter: the routines of the Rust library and of the
--   hex, base64, regex and serde_json crates (`Externs`), and the parser and printer of the sqlparser
--   crate (`Env`), of whose tree the forms that the program matches on are data and the others are
--   `other`. What bincode writes is read back as it was, unless the file is corrupt.
--   `OverflowIo` says which overflow files the file system writes and removes, what a write that
--   fails leaves in its file, and to which file a path leads; a file that is there can be read.
-- - Loops over rows, columns and lists are structural recursion. Triggers that fire triggers and views
--   of views run on fuel, whose end is the error `crash`: the source would overflow its stack.
-- - A read of an index that is not there leaves an empty map behind in the source, which no other
--   operation tells from its absence, and which is left out.
--
-- - `LogIo` says which log files can be opened, how many bytes each takes, and what bincode makes of an
--   operation; `SnapshotIo` which snapshot files can be written; `Host` what `init` finds on
--   its machine. A batch that a flush hands on is taken to reach the replica only where a
--   theorem says so: the source sends it once by UDP.
--
-- Not modelled: the Node bindings, timers, sockets and tasks, beyond the events that they cause; the
-- bytes of snapshot files, of which only whether they can be written, read and decoded counts, and the
-- temporary files beside them; the timings of a response; a trigger that drops the table whose rows are
-- being written.
pub mod VirtualTable
pub mod Config
pub mod Prelude
pub mod Error
pub mod Json
pub mod Externs
pub mod Text
pub mod Value
pub mod Expr
pub mod Schema
pub mod Fts
pub mod BTree
pub mod State
pub mod Index
pub mod Transaction
pub mod Constraint
pub mod Trigger
pub mod View
pub mod Sql
pub mod Wal
pub mod Api
pub mod Process
pub mod Examples
