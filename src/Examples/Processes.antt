-- ===== src/Examples/Processes.antt =====
-- A process with a log: its calls, its task, its start, and the bytes of its log.
use skvs.Prelude.{
  true, false, ◌≡◌, refl, Option, none, some, List, [], ◌∷◌, length, nat_eq, string_eq, arith,
}
use skvs.Prelude.Map.{lookup}
use skvs.State.{Bytes}
use skvs.Config.{default_config}
use skvs.Api
use skvs.Wal.Batch.{Operation, OpType, new_writer}
use skvs.Wal.Batch
use skvs.Wal.Log.{LogIo, write_batch}
use skvs.Wal.Log.Framed.{Accepting, file_of}
use skvs.Wal.Log.Reread.{read_frames, read_frames-write_batch}
use skvs.Process.{
  Process, WalWriter, Host, channel, run_task, send_operation, put, remove, get, new_process, init,
}
use skvs.Process.Delivered.{idle, call_put, call_remove, turn, Live, logged_by, get-Runs}
use skvs.Process.Settled.{Settled, settle, settle-Settled}
use skvs.Process.Started.{answer_after, init-init}
use skvs.Examples.Setting.{plain_externs, one_user}
use skvs.Examples.Entries.{io, named, io-Apart}

abbrev writer : WalWriter
writer = record { config = default_config; channel = []; flush_trigger = false; task = new_writer }

abbrev live : Process
live = record new_process { runtime = true; state = some one_user; wal = some writer }

live-Live : Live plain_externs io live one_user writer
live-Live = record { state = refl; wal = refl }

abbrev key : Bytes
key = 1 ∷ []

abbrev put_eleven : Operation
put_eleven = record { db_id = 1; table = "t"; op = Batch.put key (11 ∷ []) }

abbrev after_put : Process
after_put = (put plain_externs io 1 "t" key (11 ∷ []) live).1

-- The key is put and removed, and put again after the task has read the channel once.
abbrev after_all : Process
after_all =
    (put plain_externs io 1 "t" key (12 ∷ [])
      (run_task channel (remove plain_externs io 1 "t" key after_put).1)).1

get-Runs_example : get plain_externs io 1 "t" key after_all ≡ some (12 ∷ [])
get-Runs_example =
    get-Runs plain_externs io named io-Apart (λ p. refl) one_user writer live after_all _ 1 "t" key
      refl refl live-Live
      (call_put 1 "t" key (12 ∷ [])
        (turn channel (call_remove 1 "t" key (call_put 1 "t" key (11 ∷ []) idle))))

-- The log after the put, before its task runs.
abbrev one_sent : WalWriter
one_sent = send_operation put_eleven writer

settle-Settled_example : Settled (settle one_sent) (logged_by one_sent)
settle-Settled_example = settle-Settled one_sent

-- A machine without a configuration, and one with it.
abbrev bare : Host
bare = record {
  runtime_ok = true;
  read_to_string = λ p. none;
  from_toml = λ t. none;
  parse_address = λ a. none;
  disk_at = λ d. record {
    io = record { makes_dir = λ db. true; writes = λ db f. true; renames = λ db. true };
    snapshots = [];
    overflow_files = [];
  };
}

abbrev ready : Host
ready = record bare { read_to_string = λ p. some ""; from_toml = λ t. some default_config }

init-init_example :
    let (r, p) = init plain_externs bare none new_process in
    init plain_externs ready none p ≡ (answer_after r, p)
init-init_example = init-init plain_externs bare ready none none refl refl

-- Two bytes for each operation, on a disk that takes all.
abbrev two_bytes : OpType → Option Bytes
two_bytes (Batch.put k v) = some (1 ∷ 2 ∷ [])
two_bytes (Batch.delete k) = some (3 ∷ [])

abbrev a_disk : LogIo
a_disk = record {
  can_open = λ db. true;
  accepts = λ db file buf. length buf;
  serialize = λ o. two_bytes o.op;
}

a_disk-Accepting : Accepting a_disk 1
a_disk-Accepting = record { opens = refl; takes = λ file buf. ground arith }

abbrev a_batch : List Operation
a_batch =
    put_eleven
    ∷ record { db_id = 2; table = "t"; op = Batch.delete key }
    ∷ record { db_id = 1; table = "t"; op = Batch.delete key }
    ∷ []

read_frames-write_batch_example :
    read_frames 2 (file_of a_disk 1 (write_batch a_disk a_batch []))
    ≡ some ((1 ∷ 2 ∷ []) ∷ (3 ∷ []) ∷ [])
unfolding lookup
read_frames-write_batch_example =
    read_frames-write_batch a_disk 1 a_batch [] a_disk-Accepting refl refl
