-- ===== src/State/Raw.antt =====
-- src/state.rs: the raw key-value tables, with entries that spill to files past the limit.
pub mod Reads
pub mod Limit
use skvs.Prelude.{
  ℕ, zero, ◌-◌, String, Bool, true, false, ◌&&◌, Option, none, some, List, [], ◌∷◌, unwrap_or,
  length, take, ltb, nat_eq, string_eq, path_eq, bytes_eq, if◌then◌else◌,
}
use skvs.Prelude.Map.{Map, keys, lookup, insert, remove}
use skvs.Prelude.Nested.{get_in, put_in}
use skvs.Externs.{Externs}
use skvs.State.{KvsState, Bytes, FilePath, OverflowIo}

module _ (x : Externs) (io : OverflowIo) where
  abbrev pub overflow_path : ℕ → String → Bytes → FilePath
  overflow_path db table key = io.file_at db table (x.hex_encode key)

  -- An error of the removal is ignored, and the file stays.
  unfoldable pub remove_overflow_file : ℕ → String → Bytes → Map FilePath Bytes → Map FilePath Bytes
  remove_overflow_file db table key files =
      let p = overflow_path db table key in if io.removes p then remove p files else files

  -- `write_overflow_file`: whether it succeeds, and the files after it.
  abbrev pub write_overflow_file :
      ℕ → String → Bytes → Bytes → Map FilePath Bytes → Bool × Map FilePath Bytes
  write_overflow_file db table key value files =
      let p = overflow_path db table key in
      if io.writes p
      then (true, insert p value files)
      else (false, elim (io.partly p value) [ none ↦ files | some b ↦ insert p b files ])

  -- A table's entries in memory with the files.
  abbrev pub Tier : Type 0
  Tier = Map Bytes Bytes × Map FilePath Bytes

  -- One key of the eviction loop: what cannot be written goes back to memory.
  unfoldable pub evict_key : ℕ → String → Bytes → Tier → Tier
  evict_key db table key (m, files) = elim (lookup key m) [
    | none ↦ (m, files)
    | some value ↦
        let (written, files') = write_overflow_file db table key value files in
        (if written then remove key m else insert key value (remove key m), files')
  ]

  unfoldable pub evict_keys : ℕ → String → List Bytes → Tier → Tier
  evict_keys db table [] t = t
  evict_keys db table (k ∷ ks) t = evict_keys db table ks (evict_key db table k t)

  unfoldable pub evict_to_disk : ℕ → String → ℕ → Tier → Tier
  evict_to_disk db table limit (m, files) =
      evict_keys db table (take (length m - limit) (x.dash_order (keys m))) (m, files)

  -- `put_raw` on the table's entries and the files.
  unfoldable pub put_tier : ℕ → String → ℕ → Bytes → Bytes → Tier → Tier
  unfolding evict_to_disk
  put_tier db table limit key value (m, files) =
      let m' = insert key value m in
      let files' = remove_overflow_file db table key files in
      if ltb 0 limit && ltb limit (length m')
      then evict_to_disk db table limit (m', files')
      else (m', files')

  unfoldable pub put_raw : ℕ → String → Bytes → Bytes → KvsState → KvsState
  put_raw db table key value s =
      let (m, files) =
        put_tier db table s.max_entries_per_table key value
          (unwrap_or (get_in db table s.raw_stores) [], s.overflow_files) in
      record s { raw_stores = put_in db table m s.raw_stores; overflow_files = files }

  abbrev pub in_memory : ℕ → String → Bytes → KvsState → Option Bytes
  in_memory db table key s = elim (get_in db table s.raw_stores) [
    | none ↦ none
    | some m ↦ lookup key m
  ]

  unfoldable pub get_raw : ℕ → String → Bytes → KvsState → Option Bytes
  get_raw db table key s = elim (in_memory db table key s) [
    | some v ↦ some v
    | none ↦ lookup (overflow_path db table key) s.overflow_files
  ]

  unfoldable pub remove_raw : ℕ → String → Bytes → KvsState → KvsState
  remove_raw db table key s =
      let files = remove_overflow_file db table key s.overflow_files in
      elim (get_in db table s.raw_stores) [
        | none ↦ record s { overflow_files = files }
        | some m ↦ record s {
          raw_stores = put_in db table (remove key m) s.raw_stores;
          overflow_files = files;
        }
      ]
