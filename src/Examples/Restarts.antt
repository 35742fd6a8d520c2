-- ===== src/Examples/Restarts.antt =====
-- The table of users loaded into an empty database.
use skvs.Prelude.{subst, true, arith, ◌≡◌, refl, some, [], ◌∷◌, nat_eq, string_eq}
use skvs.Prelude.Map.{lookup}
use skvs.Prelude.Nested.{get_in}
use skvs.State.{KvsState, Store, new_with_config}
use skvs.State.Rows.{row_at}
use skvs.Sql.Dml.Inserting.{BelowCounter}
use skvs.Sql.Dml.Pending.{Distinct, distinct_nil, distinct_cons, apart_nil, apart_cons}
use skvs.Wal.Snapshot.{SnapshotIo, save_database, load_database, no_files, load_table}
use skvs.Wal.Snapshot.Restored.{load_table-BelowCounter}
use skvs.Wal.Snapshot.Restart.{DistinctIds, NoTables, row_at-load_database}
use skvs.Examples.Setting.{plain_externs, users, row_of}

abbrev empty : KvsState
empty = new_with_config ((1, "main") ∷ []) 2

-- The row ids 1 and 4.
abbrev saved : Store
saved = (1, row_of 7) ∷ (4, row_of 8) ∷ []

saved-Distinct : Distinct saved
saved-Distinct =
    distinct_cons (apart_cons (ground arith) apart_nil) (distinct_cons apart_nil distinct_nil)

-- The table of a running database, and the disk of a new one.
abbrev running : KvsState
running = record empty { dbs = (1, ("users", saved) ∷ []) ∷ [] }

abbrev good_disk : SnapshotIo
good_disk = record { makes_dir = λ db. true; writes = λ db f. true; renames = λ db. true }

saved-DistinctIds : DistinctIds plain_externs 1 (("users", saved) ∷ [])
unfolding lookup
saved-DistinctIds t rows h = subst Distinct (ground (arith, h)) saved-Distinct

empty-NoTables : NoTables plain_externs 1 empty
unfolding get_in lookup new_with_config skvs.Prelude.Map.insert
empty-NoTables t = refl

row_at-load_database_example :
    row_at 1 "users" 4 (
      load_database plain_externs 1
        (save_database good_disk 1 (("users", saved) ∷ []) (no_files good_disk) running)
        empty)
    ≡ row_at 1 "users" 4 running
unfolding lookup
row_at-load_database_example =
    row_at-load_database plain_externs 1 good_disk (("users", saved) ∷ []) (no_files good_disk)
      running empty refl refl saved-DistinctIds empty-NoTables refl "users" 4

load_table-BelowCounter_example :
    BelowCounter 1 "users" (load_table plain_externs 1 ("users", some users, saved) empty)
unfolding get_in lookup new_with_config skvs.Prelude.Map.insert
load_table-BelowCounter_example =
    load_table-BelowCounter plain_externs 1 "users" (some users) saved empty saved-Distinct refl
