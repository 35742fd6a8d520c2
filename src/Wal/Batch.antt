-- ===== src/Wal/Batch.antt =====
-- src/wal.rs and src/replication.rs: the operations on the raw tables, the writer's loop over its
-- events, and what a replica does with a batch. A flush hands on the batch; a file that cannot be
-- written loses it, as the source does, so what counts is what was handed on.
pub mod Delivery
pub mod Replay
use skvs.Prelude.{ℕ, String, Bool, true, false, List, [], ◌∷◌, ◌++◌, length, leb, if◌then◌else◌}
use skvs.Externs.{Externs}
use skvs.State.{KvsState, Bytes, FilePath, OverflowIo}
use skvs.State.Raw.{put_raw, remove_raw}

pub data OpType : Type 0 where
  put : Bytes → Bytes → OpType
  delete : Bytes → OpType

pub record Operation : Type 0 where
  pub db_id : ℕ
  pub table : String
  pub op : OpType

-- What wakes the writer: the timer, `flush_now`, or an operation from the channel.
pub data Event : Type 0 where
  tick flush : Event
  receive : Operation → Event

-- The batch that is being filled, and the batches handed to the log and the peer, oldest first.
pub record Writer : Type 0 where
  pub batch : List Operation
  pub written : List (List Operation)

abbrev pub new_writer : Writer
new_writer = record { batch = []; written = [] }

abbrev pub write_out : Writer → Writer
write_out w = record { batch = []; written = w.written ++ (w.batch ∷ []) }

abbrev pub flush_batch : Writer → Writer
flush_batch w = elim w.batch [ [] ↦ w | _ ∷ _ ↦ write_out w ]

unfoldable pub step : ℕ → Writer → Event → Writer
step batch_size w tick = flush_batch w
step batch_size w flush = flush_batch w
step batch_size w (receive op) =
    let w' : Writer = record w { batch = w.batch ++ (op ∷ []) } in
    if leb batch_size (length w'.batch) then write_out w' else w'

unfoldable pub run_writer : ℕ → Writer → List Event → Writer
run_writer batch_size w [] = w
run_writer batch_size w (e ∷ es) = run_writer batch_size (step batch_size w e) es

module _ (x : Externs) (io : OverflowIo) where
  -- src/replication.rs: one operation, and a received batch.
  abbrev apply_type : ℕ → String → OpType → KvsState → KvsState
  apply_type db table (put key value) s = put_raw x io db table key value s
  apply_type db table (delete key) s = remove_raw x io db table key s

  unfoldable pub apply_operation : Operation → KvsState → KvsState
  apply_operation o s = apply_type o.db_id o.table o.op s

  unfoldable pub apply_batch : List Operation → KvsState → KvsState
  apply_batch [] s = s
  apply_batch (o ∷ os) s = apply_batch os (apply_operation o s)

  -- The batches that arrive, one after the other.
  unfoldable pub apply_batches : List (List Operation) → KvsState → KvsState
  apply_batches [] s = s
  apply_batches (b ∷ bs) s = apply_batches bs (apply_batch b s)
