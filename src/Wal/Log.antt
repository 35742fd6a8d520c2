-- ===== src/Wal/Log.antt =====
-- src/wal.rs: `write_batch`, which appends a batch to the log files, one file per database. An
-- operation is a frame: the length of its bytes in four bytes, the lowest first, then the bytes.
pub mod Framed
pub mod Reread
use skvs.Prelude.{
  ℕ, ◌/◌, ◌%◌, Bool, false, Option, none, some, List, [], ◌∷◌, ◌++◌, length, take, leb, unwrap_or,
  nat_eq, if◌then◌else◌,
}
use skvs.Prelude.Map.{Map, lookup, insert}
use skvs.State.{Bytes}
use skvs.Wal.Batch.{Operation}

-- The operations of each database, in their order.
unfoldable pub group_ops : List Operation → Map ℕ (List Operation) → Map ℕ (List Operation)
group_ops [] groups = groups
group_ops (o ∷ os) groups =
    group_ops os (insert o.db_id (unwrap_or (lookup o.db_id groups) [] ++ (o ∷ [])) groups)

-- `(len as u32).to_le_bytes()`
unfoldable pub to_le_bytes : ℕ → Bytes
to_le_bytes n = n % 256 ∷ (n / 256) % 256 ∷ (n / 65536) % 256 ∷ (n / 16777216) % 256 ∷ []

-- What the file system and bincode do: whether the directory and the file of a database can be
-- opened, how many of some bytes a file of that content takes, the bytes of an operation.
pub record LogIo : Type 0 where
  pub can_open : ℕ → Bool
  pub accepts : ℕ → Bytes → Bytes → ℕ
  pub serialize : Operation → Option Bytes

module _ (io : LogIo) where
  -- `write_all`: whether all was written, and the file.
  unfoldable pub write_all : ℕ → Bytes → Bytes → Bool × Bytes
  write_all db buf file =
      let n : ℕ = io.accepts db file buf in (leb (length buf) n, file ++ take n buf)

  -- The two writes of an operation. The second is left out when the first fails.
  unfoldable pub write_frame : ℕ → Bytes → Bytes → Bool × Bytes
  write_frame db encoded file =
      let (done, file') = write_all db (to_le_bytes (length encoded)) file in
      if done then write_all db encoded file' else (false, file')

  -- An operation that does not serialize is skipped; a write that fails ends the database's part.
  unfoldable pub write_ops : ℕ → List Operation → Bytes → Bytes
  write_ops db [] file = file
  write_ops db (o ∷ os) file = elim (io.serialize o) [
    | none ↦ write_ops db os file
    | some encoded ↦
        let (done, file') = write_frame db encoded file in
        let rest : Bytes = write_ops db os file' in if done then rest else file'
  ]

  unfoldable pub write_groups : Map ℕ (List Operation) → Map ℕ Bytes → Map ℕ Bytes
  write_groups [] files = files
  write_groups ((db, os) ∷ rest) files = write_groups rest (
      if io.can_open db
      then insert db (write_ops db os (unwrap_or (lookup db files) [])) files
      else files)

  unfoldable pub write_batch : List Operation → Map ℕ Bytes → Map ℕ Bytes
  write_batch batch files = write_groups (group_ops batch []) files
