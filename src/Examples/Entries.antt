-- ===== src/Examples/Entries.antt =====
-- Raw entries with a limit of two in memory, the writer of the log, and a replica.
use skvs.Prelude.{
  ℕ, Bool, ◌≡◌, Option, none, some, List, [], ◌∷◌, nat_eq, string_eq, bytes_eq, ◌==◌, arith,
}
use text.Mathlib.TextEquality.{eq_iff}
use skvs.Prelude.{true, false, refl, sym, suc, ap, ◌∙◌, String, list_beq_iff, if◌then◌else◌}
use skvs.Prelude.Map.{lookup, remove}
use skvs.Prelude.Nested.{get_in}
use skvs.State.{new_with_config, KvsState, Bytes, OverflowIo}
use skvs.State.Raw.{put_raw, get_raw, remove_raw}
use skvs.State.Raw.Limit.{Within, GivesKeys, remove-absent, memory_of, put_raw-Within}
use skvs.State.Raw.Reads.{Apart, get_raw-put_raw, get_raw-remove_raw}
use skvs.Wal.Batch.{
  Operation, put, delete, Event, tick, receive, new_writer, run_writer, apply_batch,
}
use skvs.Wal.Batch.Delivery.{
  held, received, held-run_writer, Bounded, none_left, run_writer-Bounded,
}
use skvs.Wal.Batch.Replay.{get_raw-apply_batch}
use skvs.Examples.Setting.{plain_externs, unary-inj, one_user}

-- The directory that the name of a table leads to.
abbrev directory : String → String
directory table = if table == "./t" then "t" else table

-- A file system that writes only the files of directory "t".
abbrev pub io : OverflowIo
io = record {
  writes = λ p. p.1 == "t";
  partly = λ p v. some [];
  removes = λ p. true;
  file_at = λ db table name. (db, directory table, name);
}

-- The same, but it removes no file.
abbrev stuck : OverflowIo
stuck = record io { removes = λ p. false }

abbrev pub named : String → Bool
named table = table == "t"

pub io-Apart : Apart plain_externs io named
io-Apart db db' table table' a b n n' e =
    let t = (eq_iff table "t").0 n in
    let t' = (eq_iff table' "t").0 n' in
    (ap (λ p. p.0) e, t ∙ sym t', unary-inj a b (ap (λ p. p.2) e))

abbrev get_entry : Bytes → KvsState → Option Bytes
get_entry = get_raw plain_externs io 1 "t"

abbrev put_entry : Bytes → Bytes → KvsState → KvsState
put_entry = put_raw plain_externs io 1 "t"

-- Three entries, so that the first is in a file.
abbrev three_entries : KvsState
three_entries =
    put_entry (3 ∷ []) (30 ∷ [])
      (put_entry (2 ∷ []) (20 ∷ []) (put_entry (1 ∷ []) (10 ∷ []) one_user))

get_raw-put_raw_example :
    get_entry (3 ∷ []) (put_entry (3 ∷ []) (33 ∷ []) three_entries) ≡ some (33 ∷ [])
get_raw-put_raw_example =
    get_raw-put_raw plain_externs io named io-Apart 1 1 "t" "t" (3 ∷ []) (3 ∷ []) (33 ∷ [])
      three_entries refl refl

get_raw-remove_raw_example :
    get_raw plain_externs stuck 1 "t"
      (1 ∷ [])
      (remove_raw plain_externs stuck 1 "t" (1 ∷ []) three_entries)
    ≡ some (10 ∷ [])
unfolding lookup put_raw skvs.State.Raw.put_tier new_with_config skvs.Prelude.Map.insert get_in
    skvs.Prelude.Nested.put_in skvs.State.Raw.evict_keys skvs.State.Raw.evict_key
    skvs.State.Raw.remove_overflow_file remove
get_raw-remove_raw_example =
    get_raw-remove_raw plain_externs stuck named io-Apart 1 1 "t" "t" (1 ∷ []) (1 ∷ [])
      three_entries refl refl

abbrev an_operation : ℕ → Operation
an_operation n = record { db_id = 1; table = "t"; op = put (n ∷ []) [] }

abbrev events : List Event
events = receive (an_operation 1) ∷ receive (an_operation 2) ∷ receive (an_operation 3) ∷ tick ∷ []

held-run_writer_example : held (run_writer 2 new_writer events) ≡ received events
held-run_writer_example = held-run_writer 2 new_writer events

run_writer-Bounded_example : Bounded 2 (run_writer 2 new_writer events)
run_writer-Bounded_example =
    run_writer-Bounded 2 new_writer events (record { short = ground arith; written = none_left })

abbrev a_batch : List Operation
a_batch =
    record { db_id = 1; table = "t"; op = put (1 ∷ []) (11 ∷ []) }
    ∷ record { db_id = 1; table = "t"; op = delete (2 ∷ []) }
    ∷ []

get_raw-apply_batch_example :
    get_entry (2 ∷ []) (apply_batch plain_externs io a_batch three_entries) ≡ none
get_raw-apply_batch_example =
    get_raw-apply_batch plain_externs io named io-Apart (λ p. refl) a_batch 1 "t" (2 ∷ [])
      three_entries refl refl

-- A file system that takes every file.
abbrev all_files : OverflowIo
all_files = record io { writes = λ p. true }

in_order-GivesKeys : GivesKeys (λ ks. ks)
unfolding lookup remove
in_order-GivesKeys [] a = (refl, refl)
in_order-GivesKeys ((k, v) ∷ m) a = (
  ground (
    arith,
    list_beq_iff k k,
    remove-absent k m (ground (arith, a)),
    (in_order-GivesKeys m (ground (arith, a))).0,
  ),
  ap suc (in_order-GivesKeys m (ground (arith, a))).1,
)

-- Two entries, which is as many as memory takes.
abbrev two_entries : KvsState
two_entries = record one_user {
  raw_stores = (1, ("t", (1 ∷ [], 10 ∷ []) ∷ (2 ∷ [], 20 ∷ []) ∷ []) ∷ []) ∷ [];
}

put_raw-Within_example :
    Within 2
      (memory_of 1 "t" (put_raw plain_externs all_files 1 "t" (3 ∷ []) (30 ∷ []) two_entries))
unfolding new_with_config get_in lookup
put_raw-Within_example =
    put_raw-Within plain_externs all_files (λ p. refl) in_order-GivesKeys 1 "t" (3 ∷ []) (30 ∷ [])
      two_entries (ground arith) refl
