-- ===== src/Process/Settled.antt =====
-- src/wal.rs, src/replication.rs: after its channel is read and its timer fires the writer holds
-- nothing, and a replica that gets its batches reads like the process.
use mathlib.Core.List.{append-nil}
use skvs.Prelude.{ℕ, zero, suc, ◌≡◌, refl, sym, ap, ◌∙◌, List, [], ◌∷◌, ◌++◌, length}
use skvs.Externs.{Externs}
use skvs.Wal.Batch.{Operation, Writer, step, flush_batch}
use skvs.Wal.Batch.Delivery.{held, concat}
use skvs.Process.{Process, WalWriter, on_tick, on_receive}
use skvs.Process.Delivered.{logged_by, logged_by-on_receive, logged_by-on_tick}

-- The arm of the channel, as often as the channel has operations, then the timer.
abbrev receive_all : ℕ → WalWriter → WalWriter
receive_all zero w = w
receive_all (suc n) w = receive_all n (on_receive w)

abbrev pub settle : WalWriter → WalWriter
settle w = on_tick (receive_all (length w.channel) w)

-- Nothing is left to hand on, and what was handed on is all of `os`.
pub record Settled (w : WalWriter) (os : List Operation) : Type 0 where
  pub channel : w.channel ≡ []
  pub batch : w.task.batch ≡ []
  pub written : concat w.task.written ≡ os

channel-receive_all :
    (c : List Operation) (w : WalWriter) → w.channel ≡ c → (receive_all (length c) w).channel ≡ []
unfolding on_receive
channel-receive_all [] w e = e
channel-receive_all (o ∷ os) w e = channel-receive_all os (on_receive w) (rw (e, on_receive) refl)

logged_by-receive_all : (n : ℕ) (w : WalWriter) → logged_by (receive_all n w) ≡ logged_by w
logged_by-receive_all zero w = refl
logged_by-receive_all (suc n) w = logged_by-receive_all n (on_receive w) ∙ logged_by-on_receive w

batch-flush_batch :
    (b : List Operation) (bs : List (List Operation))
    → let w : Writer = record { batch = b; written = bs } in (flush_batch w).batch ≡ []
batch-flush_batch [] bs = refl
batch-flush_batch (o ∷ os) bs = refl

batch-on_tick : (w : WalWriter) → (on_tick w).task.batch ≡ []
unfolding on_tick step
batch-on_tick w = batch-flush_batch w.task.batch w.task.written

channel-on_tick : (w : WalWriter) → (on_tick w).channel ≡ w.channel
unfolding on_tick
channel-on_tick w = refl

written-settle : (w : WalWriter) → logged_by (settle w) ≡ logged_by w
written-settle w =
    logged_by-on_tick (receive_all (length w.channel) w)
    ∙ logged_by-receive_all (length w.channel) w

-- Once the task of the log has taken its turn at the channel for each operation there, and the
-- timer has fired, neither the channel nor the batch holds anything, and the batches handed on are
-- together all the operations that the log ever had, in order.
pub settle-Settled : (w : WalWriter) → Settled (settle w) (logged_by w)
settle-Settled w =
    let c =
      channel-on_tick (receive_all (length w.channel) w) ∙ channel-receive_all w.channel w refl in
    let b = batch-on_tick (receive_all (length w.channel) w) in
    let n = concat (settle w).task.written in
    record {
      channel = c;
      batch = b;
      written =
          sym (append-nil n)
          ∙ ap (λ l. n ++ l) (sym b)
          ∙ sym (append-nil (held (settle w).task))
          ∙ ap (λ l. held (settle w).task ++ l) (sym c)
          ∙ written-settle w;
    }
