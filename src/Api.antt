-- ===== src/Api.antt =====
-- src/lib.rs: the calls of a client. The raw calls send the operation to the log as well; a
-- parameter that is no value becomes NULL.
use skvs.Prelude.{ℕ, String, Option, List, [], ◌∷◌, unwrap_or, string_eq}
use skvs.Error.{Result, ok, err}
use skvs.Externs.{Externs}
use skvs.Json.Tree.{Json, Fields, end, field}
use skvs.Json.Convert.{from_json, to_json}
use skvs.Value.{Value, Row}
use skvs.State.{KvsState, Bytes, OverflowIo}
use skvs.State.Raw.{put_raw, get_raw, remove_raw}
use skvs.Transaction
use skvs.Wal.Batch
use skvs.Wal.Batch.{Operation}
use skvs.Sql.Env.{Env, QueryResult, Exec}
use skvs.Sql.Engine.{execute}

module _ (x : Externs) (io : OverflowIo) where
  unfoldable pub put : ℕ → String → Bytes → Bytes → KvsState → KvsState × Operation
  put db table key value s = (
    put_raw x io db table key value s,
    record { db_id = db; table = table; op = Batch.put key value },
  )

  unfoldable pub get : ℕ → String → Bytes → KvsState → Option Bytes
  get db table key s = get_raw x io db table key s

  unfoldable pub remove : ℕ → String → Bytes → KvsState → KvsState × Operation
  remove db table key s =
      (remove_raw x io db table key s, record { db_id = db; table = table; op = Batch.delete key })

module _ (x : Externs) where
  unfoldable pub begin_transaction : ℕ → KvsState → ℕ × KvsState
  begin_transaction db s = Transaction.begin x db s

  unfoldable pub commit_transaction : ℕ → KvsState → Result (Unit {0}) × KvsState
  commit_transaction id s = Transaction.commit x id s

  unfoldable pub rollback_transaction : ℕ → KvsState → Result (Unit {0}) × KvsState
  rollback_transaction id s = Transaction.rollback x id s

  abbrev read_params : List Json → List Value
  read_params [] = []
  read_params (j ∷ js) = unwrap_or (from_json x j) Value.null ∷ read_params js

  abbrev row_object : Row → Fields
  row_object [] = end
  row_object ((k, v) ∷ rest) = field k (to_json x v) (row_object rest)

  abbrev row_objects : List Row → List Json
  row_objects [] = []
  row_objects (r ∷ rs) = Json.object (row_object r) ∷ row_objects rs

-- The columns, the rows as JSON, and the counts; the timings are left out.
pub record Response : Type 0 where
  pub columns : List String
  pub rows : List Json
  pub affected_rows : Option ℕ
  pub tx_id : Option ℕ

abbrev respond : Externs → Result QueryResult → Result Response
respond x (err e) = err e
respond x (ok r) = ok (record {
  columns = r.columns;
  rows = row_objects x r.rows;
  affected_rows = r.affected_rows;
  tx_id = r.tx_id;
})

unfoldable pub query : Env → ℕ → ℕ → String → List Json → Option ℕ → Exec Response
query x fuel db sql params tx s =
    let (r, s') = execute x fuel db sql (read_params x.externs params) tx s in
    (respond x.externs r, s')
