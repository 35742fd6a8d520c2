-- ===== src/Process/Delivered.antt =====
-- src/lib.rs, src/wal.rs: what becomes of the raw calls of a client, in every order in which the
-- calls and the writer's task take their turns.
use mathlib.Core.List.{append_assoc, append-nil}
use skvs.Prelude.{
  ℕ, String, Bool, true, ◌≡◌, refl, sym, ap, ◌∙◌, inl, inr, none, some, List, [], ◌∷◌, ◌++◌,
  Bool-cases,
}
use skvs.Externs.{Externs}
use skvs.State.{KvsState, Bytes, FilePath, OverflowIo}
use skvs.State.Raw.Reads.{Apart}
use skvs.Api
use skvs.Wal.Batch
use skvs.Wal.Batch.{
  Operation, Event, tick, flush, receive, Writer, step, apply_batch, apply_operation,
}
use skvs.Wal.Batch.Delivery.{held, held-step}
use skvs.Wal.Batch.Replay.{replayed, on_named, get_raw-apply_batch}
use skvs.Process.{
  Process, WalWriter, Turn, timer, permit, channel, take_turn, run_task, send_operation, flush_now,
  on_tick, on_notified, on_receive, flush_log, put, get, remove,
}

-- What the log has: the operations handed on, those in the batch, those in the channel.
abbrev pub logged_by : WalWriter → List Operation
logged_by w = held w.task ++ w.channel

logged_by-send_operation :
    (o : Operation) (w : WalWriter) → logged_by (send_operation o w) ≡ logged_by w ++ o ∷ []
unfolding send_operation
logged_by-send_operation o w = sym (append_assoc (held w.task) w.channel (o ∷ []))

pub logged_by-on_tick : (w : WalWriter) → logged_by (on_tick w) ≡ logged_by w
unfolding on_tick
logged_by-on_tick w =
    ap (λ l. l ++ w.channel)
      (held-step w.config.wal.batch_size w.task tick ∙ append-nil (held w.task))

logged_by-on_notified : (w : WalWriter) → logged_by (on_notified w) ≡ logged_by w
unfolding on_notified
logged_by-on_notified w = elim (Bool-cases w.flush_trigger) [
  | inl e ↦ rw e (
      ap (λ l. l ++ w.channel)
        (held-step w.config.wal.batch_size w.task flush ∙ append-nil (held w.task)))
  | inr e ↦ rw e refl
]

-- The arm of the channel, on the fields of the writer.
pub logged_by-on_receive : (w : WalWriter) → logged_by (on_receive w) ≡ logged_by w
unfolding on_receive
logged_by-on_receive w =
    elim w.channel as (λ c. logged_by (on_receive (record w { channel = c })) ≡ held w.task ++ c) [
      | [] ↦ refl
      | o ∷ os ↦
          ap (λ l. l ++ os) (held-step w.config.wal.batch_size w.task (receive o))
          ∙ append_assoc (held w.task) (o ∷ []) os
    ]

pub logged_by-take_turn : (t : Turn) (w : WalWriter) → logged_by (take_turn t w) ≡ logged_by w
logged_by-take_turn timer w = logged_by-on_tick w
logged_by-take_turn permit w = logged_by-on_notified w
logged_by-take_turn channel w = logged_by-on_receive w

logged_by-flush_now : (w : WalWriter) → logged_by (flush_now w) ≡ logged_by w
unfolding flush_now
logged_by-flush_now w = refl

apply_batch-append :
    (x : Externs) (io : OverflowIo) (os : List Operation) (o : Operation) (s : KvsState)
    → apply_batch x io (os ++ o ∷ []) s ≡ apply_operation x io o (apply_batch x io os s)
unfolding apply_batch
apply_batch-append x io [] o s = refl
apply_batch-append x io (a ∷ os) o s = apply_batch-append x io os o (apply_operation x io a s)

module _ (x : Externs) (io : OverflowIo) where
  abbrev put_operation : ℕ → String → Bytes → Bytes → Operation
  put_operation db table key value = record { db_id = db; table = table; op = Batch.put key value }

  abbrev remove_operation : ℕ → String → Bytes → Operation
  remove_operation db table key = record { db_id = db; table = table; op = Batch.delete key }

  -- What can happen to a process by raw calls and by its task, in any order, with the operations
  -- of the calls.
  pub data Runs (p : Process) : List Operation → Process → Type 0 where
    idle : Runs p [] p
    call_put :
        {os : List Operation} {q : Process} (db : ℕ) (table : String) (key value : Bytes)
        → Runs p os q
        → Runs p (os ++ put_operation db table key value ∷ []) (put x io db table key value q).1
    call_remove :
        {os : List Operation} {q : Process} (db : ℕ) (table : String) (key : Bytes)
        → Runs p os q
        → Runs p (os ++ remove_operation db table key ∷ []) (remove x io db table key q).1
    call_flush : {os : List Operation} {q : Process} → Runs p os q → Runs p os (flush_log q).1
    turn : {os : List Operation} {q : Process} (t : Turn) → Runs p os q → Runs p os (run_task t q)

  -- A process that was initialized, with its state and its writer.
  pub record Live (p : Process) (s : KvsState) (w : WalWriter) : Type 0 where
    pub state : p.state ≡ some s
    pub wal : p.wal ≡ some w

  -- The state has had the operations applied to it, and the log has them all.
  abbrev pub Followed : KvsState → WalWriter → List Operation → Process → Type 0
  Followed s w os q =
      (v : WalWriter) × Live q (apply_batch x io os s) v × (logged_by v ≡ logged_by w ++ os)

  put-Followed :
      (s : KvsState) (w : WalWriter) (os : List Operation) (q : Process) (db : ℕ) (table : String)
      (key value : Bytes)
      → Followed s w os q
      → Followed s w (os ++ put_operation db table key value ∷ []) (put x io db table key value q).1
  unfolding put Api.put apply_operation
  put-Followed s w os q db table key value (v, l, h) =
      let o = put_operation db table key value in
      (
        send_operation o v,
        record {
          state = rw (l.state, put) (rw (apply_batch-append x io os o s) refl);
          wal = rw (l.state, l.wal, put) refl;
        },
        logged_by-send_operation o v
            ∙ ap (λ m. m ++ o ∷ []) h
            ∙ append_assoc (logged_by w) os (o ∷ []),
      )

  remove-Followed :
      (s : KvsState) (w : WalWriter) (os : List Operation) (q : Process) (db : ℕ) (table : String)
      (key : Bytes)
      → Followed s w os q
      → Followed s w (os ++ remove_operation db table key ∷ []) (remove x io db table key q).1
  unfolding remove Api.remove apply_operation
  remove-Followed s w os q db table key (v, l, h) =
      let o = remove_operation db table key in
      (
        send_operation o v,
        record {
          state = rw (l.state, remove) (rw (apply_batch-append x io os o s) refl);
          wal = rw (l.state, l.wal, remove) refl;
        },
        logged_by-send_operation o v
            ∙ ap (λ m. m ++ o ∷ []) h
            ∙ append_assoc (logged_by w) os (o ∷ []),
      )

  flush_log-Followed :
      (s : KvsState) (w : WalWriter) (os : List Operation) (q : Process)
      → Followed s w os q
      → Followed s w os (flush_log q).1
  unfolding flush_log
  flush_log-Followed s w os q (v, l, h) = (
    flush_now v,
    record { state = rw (l.wal, flush_log) l.state; wal = rw (l.wal, flush_log) refl },
    logged_by-flush_now v ∙ h,
  )

  run_task-Followed :
      (s : KvsState) (w : WalWriter) (os : List Operation) (t : Turn) (q : Process)
      → Followed s w os q
      → Followed s w os (run_task t q)
  unfolding run_task
  run_task-Followed s w os t q (v, l, h) = (
    take_turn t v,
    record { state = l.state; wal = rw (l.wal, run_task) refl },
    logged_by-take_turn t v ∙ h,
  )

  module _ (s : KvsState) (w : WalWriter) (p : Process) (l : Live p s w) where
    pub Runs-Followed : {os : List Operation} {q : Process} → Runs p os q → Followed s w os q
    unfolding apply_batch
    Runs-Followed idle = (w, l, sym (append-nil (logged_by w)))
    Runs-Followed (call_put {os} {q} db table key value r) =
        put-Followed s w os q db table key value (Runs-Followed r)
    Runs-Followed (call_remove {os} {q} db table key r) =
        remove-Followed s w os q db table key (Runs-Followed r)
    Runs-Followed (call_flush {os} {q} r) = flush_log-Followed s w os q (Runs-Followed r)
    Runs-Followed (turn {os} {q} t r) = run_task-Followed s w os t q (Runs-Followed r)

  -- The operations that the log of a process has.
  abbrev pub log_of : Process → List Operation
  log_of p = elim p.wal [ none ↦ [] | some w ↦ logged_by w ]

  pub log_of-Runs :
      (s : KvsState) (w : WalWriter) (p q : Process) (os : List Operation)
      → Live p s w
      → Runs p os q
      → log_of q ≡ log_of p ++ os
  log_of-Runs s w p q os l r = let (v, k, h) = Runs-Followed s w p l r in rw (l.wal, k.wal) h

  module _ (named : String → Bool) (apart : Apart x io named)
      (removable : (p : FilePath) → io.removes p ≡ true) where
    -- Whatever raw calls come to an initialized process, and in whichever order they and the turns
    -- of the log task take place, a key reads as the last call that names it left it, and as
    -- before if none does, if the files of the tables involved tell databases, tables and keys
    -- apart and a file that is to be removed is removed.
    pub get-Runs :
        (s : KvsState) (w : WalWriter) (p q : Process) (os : List Operation) (db : ℕ)
        (table : String) (key : Bytes)
        → on_named named os ≡ true
        → named table ≡ true
        → Live p s w
        → Runs p os q
        → get x io db table key q ≡ replayed os db table key (get x io db table key p)
    unfolding get Api.get
    get-Runs s w p q os db table key h n l r =
        let (v, k, e) = Runs-Followed s w p l r in
        rw (l.state, k.state, get)
          (get_raw-apply_batch x io named apart removable os db table key s h n)
