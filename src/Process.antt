-- ===== src/Process.antt =====
-- src/lib.rs: the globals of the process and the calls of a client on them: `init`, which sets them
-- once, and the calls that fail until then. With them `WalWriter` of src/wal.rs, with its channel and
-- its task, and `ReplicationService` of src/replication.rs.
pub mod Delivered
pub mod Settled
pub mod Started
use skvs.Prelude.{
  ℕ, String, Bool, true, false, Option, none, some, List, [], ◌∷◌, ◌++◌, unwrap_or, if◌then◌else◌,
}
use skvs.Prelude.Map.{Map}
use skvs.Error.{SkvsError, Result, ok, err}
use skvs.Externs.{Externs}
use skvs.Json.Tree.{Json}
use skvs.Config.{Config, DatabaseConfig, load_config, default_path}
use skvs.State.{KvsState, Bytes, FilePath, OverflowIo, new_with_config, get_db_id}
use skvs.Wal.Batch.{Operation, Event, tick, flush, receive, Writer, new_writer, step}
use skvs.Wal.Snapshot.{Files, SnapshotIo, load_sql_snapshot}
use skvs.Sql.Env.{Env}
use skvs.Api
use skvs.Api.{Response}

-- The errors of the calls: those of `init`, those of a call that comes too early, and those of the
-- engine.
pub data CallError : Type 0 where
  no_runtime runtime_already_set not_initialized wal_not_started already_set : CallError
  engine : SkvsError → CallError

pub data Reply {ℓ} (A : Type ℓ) : Type ℓ where
  done : A → Reply A
  failed : CallError → Reply A

abbrev pub reply_of {ℓ} : {A : Type ℓ} → Result A → Reply A
reply_of (ok a) = done a
reply_of (err e) = failed (engine e)

-- The channel holds what was sent and not yet received; `notify_one` leaves at most one permit.
pub record WalWriter : Type 0 where
  pub config : Config
  pub channel : List Operation
  pub flush_trigger : Bool
  pub task : Writer

abbrev new_wal_writer : Config → WalWriter
new_wal_writer config = record {
  config = config;
  channel = [];
  flush_trigger = false;
  task = new_writer;
}

unfoldable pub send_operation : Operation → WalWriter → WalWriter
send_operation op w = record w { channel = w.channel ++ (op ∷ []) }

unfoldable pub flush_now : WalWriter → WalWriter
flush_now w = record w { flush_trigger = true }

abbrev run_step : Event → WalWriter → WalWriter
run_step e w = record w { task = step w.config.wal.batch_size w.task e }

-- The three arms of the task's `select!`: the timer, the permit, the channel.
unfoldable pub on_tick : WalWriter → WalWriter
on_tick w = run_step tick w

unfoldable pub on_notified : WalWriter → WalWriter
on_notified w = if w.flush_trigger then run_step flush (record w { flush_trigger = false }) else w

unfoldable pub on_receive : WalWriter → WalWriter
on_receive w = elim w.channel [
  | [] ↦ w
  | op ∷ ops ↦ run_step (receive op) (record w { channel = ops })
]

pub record ReplicationService : Type 0 where
  pub peer_addr : Option String
  pub local_port : ℕ

abbrev and_then : Option String → (String → Option String) → Option String
and_then none f = none
and_then (some s) f = f s

abbrev address_of : Config → Option String
address_of config = elim config.peer [ none ↦ none | some p ↦ some p.address ]

-- `parse_address` reads a socket address.
abbrev new_replication : (String → Option String) → Config → ReplicationService
new_replication parse_address config = record {
  peer_addr = and_then (address_of config) parse_address;
  local_port = config.server.replication_port;
}

-- The statics, each set at most once.
pub record Process : Type 0 where
  pub runtime : Bool
  pub state : Option KvsState
  pub wal : Option WalWriter
  pub replication : Option ReplicationService

abbrev pub new_process : Process
new_process = record { runtime = false; state = none; wal = none; replication = none }

-- The files under the base directory that the last run left.
pub record Disk : Type 0 where
  pub io : SnapshotIo
  pub snapshots : Map ℕ Files
  pub overflow_files : Map FilePath Bytes

abbrev pub databases_of : List DatabaseConfig → List (ℕ × String)
databases_of [] = []
databases_of (d ∷ ds) = (d.id, d.name) ∷ databases_of ds

-- What `init` takes from outside: whether a runtime can be made, the file system, the TOML reader.
pub record Host : Type 0 where
  pub runtime_ok : Bool
  pub read_to_string : String → Option String
  pub from_toml : String → Option Config
  pub parse_address : String → Option String
  pub disk_at : String → Disk

module _ (x : Externs) where
  unfoldable pub restored_state : Host → Config → KvsState
  restored_state host config =
      let disk : Disk = host.disk_at config.storage.base_dir in
      let s : KvsState =
        new_with_config (databases_of config.databases) config.memory.max_entries_per_table in
      (load_sql_snapshot x disk.io disk.snapshots
        (record s { overflow_files = disk.overflow_files })).1

  abbrev set_replication : ReplicationService → Process → Reply (Unit {0}) × Process
  set_replication r p = elim p.replication [
    | some _ ↦ (failed already_set, p)
    | none ↦ (done tt, record p { replication = some r })
  ]

  abbrev set_wal : WalWriter → ReplicationService → Process → Reply (Unit {0}) × Process
  set_wal w r p = elim p.wal [
    | some _ ↦ (failed already_set, p)
    | none ↦ set_replication r (record p { wal = some w })
  ]

  abbrev pub start : Host → Config → Process → Reply (Unit {0}) × Process
  start host config p =
      set_wal (new_wal_writer config) (new_replication host.parse_address config)
        (record p { state = some (restored_state host config) })

  -- The runtime is set before the configuration is read.
  unfoldable pub init : Host → Option String → Process → Reply (Unit {0}) × Process
  init host config_path p = elim p.state [
    | some _ ↦ (done tt, p)
    | none ↦
        if host.runtime_ok
        then (if p.runtime
            then (failed runtime_already_set, p)
            else (elim (load_config host.read_to_string host.from_toml
                (unwrap_or config_path default_path)) [
                  | err e ↦ (failed (engine e), record p { runtime = true })
                  | ok config ↦ start host config (record p { runtime = true })
                ]))
        else (failed no_runtime, p)
  ]

-- The arm of the task that is taken.
pub data Turn : Type 0 where
  timer permit channel : Turn

abbrev pub take_turn : Turn → WalWriter → WalWriter
take_turn timer w = on_tick w
take_turn permit w = on_notified w
take_turn channel w = on_receive w

abbrev on_wal : (WalWriter → WalWriter) → Option WalWriter → Option WalWriter
on_wal f none = none
on_wal f (some w) = some (f w)

unfoldable pub run_task : Turn → Process → Process
run_task t p = record p { wal = on_wal (take_turn t) p.wal }

-- A call on the state; without one it fails.
abbrev with_state : {A : Type 0} → (KvsState → Reply A × KvsState) → Process → Reply A × Process
with_state f p = elim p.state [
  | none ↦ (failed not_initialized, p)
  | some s ↦ let (a, s') = f s in (a, record p { state = some s' })
]

abbrev send_if : Option WalWriter → Operation → Option WalWriter
send_if none op = none
send_if (some w) op = some (send_operation op w)

-- A raw call, whose operation goes to the log when there is one.
abbrev logged : (KvsState → KvsState × Operation) → Process → Reply (Unit {0}) × Process
logged f p = elim p.state [
  | none ↦ (failed not_initialized, p)
  | some s ↦ let (s', op) = f s in (done tt, record p { state = some s'; wal = send_if p.wal op })
]

unfoldable pub get_db_id_by_name : String → Process → Option ℕ
get_db_id_by_name name p = elim p.state [ none ↦ none | some s ↦ get_db_id name s ]

unfoldable pub flush_log : Process → Reply (Unit {0}) × Process
flush_log p = elim p.wal [
  | none ↦ (failed wal_not_started, p)
  | some w ↦ (done tt, record p { wal = some (flush_now w) })
]

module _ (x : Externs) (io : OverflowIo) where
  unfoldable pub put : ℕ → String → Bytes → Bytes → Process → Reply (Unit {0}) × Process
  put db table key value = logged (Api.put x io db table key value)

  unfoldable pub remove : ℕ → String → Bytes → Process → Reply (Unit {0}) × Process
  remove db table key = logged (Api.remove x io db table key)

  unfoldable pub get : ℕ → String → Bytes → Process → Option Bytes
  get db table key p = elim p.state [ none ↦ none | some s ↦ Api.get x io db table key s ]

module _ (x : Externs) where
  unfoldable pub begin_transaction : ℕ → Process → Reply ℕ × Process
  begin_transaction db =
      with_state (λ s. let (id, s') = Api.begin_transaction x db s in (done id, s'))

  unfoldable pub commit_transaction : ℕ → Process → Reply (Unit {0}) × Process
  commit_transaction id =
      with_state (λ s. let (r, s') = Api.commit_transaction x id s in (reply_of r, s'))

  unfoldable pub rollback_transaction : ℕ → Process → Reply (Unit {0}) × Process
  rollback_transaction id =
      with_state (λ s. let (r, s') = Api.rollback_transaction x id s in (reply_of r, s'))

unfoldable pub query :
    Env → ℕ → ℕ → String → List Json → Option ℕ → Process → Reply Response × Process
query x fuel db sql params tx =
    with_state (λ s. let (r, s') = Api.query x fuel db sql params tx s in (reply_of r, s'))
