-- ===== src/Wal/Batch/Replay.antt =====
-- src/replication.rs: what a replica holds after a batch.
use skvs.Prelude.{
  ℕ, String, Bool, true, ◌&&◌, ◌≡◌, refl, ap, ◌∙◌, Option, none, some, List, [], ◌∷◌, nat_eq,
  string_eq, bytes_eq, ◌==◌, if◌then◌else◌, arith,
}
use skvs.Externs.{Externs}
use skvs.State.{KvsState, Bytes, FilePath, OverflowIo}
use skvs.State.Raw.{get_raw, overflow_path}
use skvs.State.Raw.Reads.{Apart, get_raw-put_raw, get_raw-remove_raw}
use skvs.Wal.Batch.{Operation, OpType, put, delete, apply_operation, apply_batch}

-- What an operation leaves at a key that held `before`.
abbrev left_by : OpType → Bytes → Option Bytes → Option Bytes
left_by (put k v) key before = if k == key then some v else before
left_by (delete k) key before = if k == key then none else before

abbrev left_at : Operation → ℕ → String → Bytes → Option Bytes → Option Bytes
left_at o db table key before =
    if o.db_id == db && o.table == table then left_by o.op key before else before

-- The value of a key by the operations alone: the last that names it decides.
abbrev pub replayed : List Operation → ℕ → String → Bytes → Option Bytes → Option Bytes
replayed [] db table key before = before
replayed (o ∷ os) db table key before = replayed os db table key (left_at o db table key before)

-- The operations are on named tables.
abbrev pub on_named : (String → Bool) → List Operation → Bool
on_named named [] = true
on_named named (o ∷ os) = named o.table && on_named named os

module _ (x : Externs) (io : OverflowIo) (named : String → Bool) (apart : Apart x io named)
    (removable : (p : FilePath) → io.removes p ≡ true) where
  get_raw-apply_type :
      (d : ℕ) (t : String) (p : OpType) (db : ℕ) (table : String) (key : Bytes) (s : KvsState)
      → named t ≡ true
      → named table ≡ true
      → let o : Operation = record { db_id = d; table = t; op = p } in
        get_raw x io db table key (apply_operation x io o s)
        ≡ left_at o db table key (get_raw x io db table key s)
  unfolding apply_operation
  get_raw-apply_type d t (put k v) db table key s n n' =
      ground (arith, get_raw-put_raw x io named apart d db t table k key v s n n')
  get_raw-apply_type d t (delete k) db table key s n n' = ground (
    arith,
    get_raw-remove_raw x io named apart d db t table k key s n n',
    removable (overflow_path x io d t k),
  )

  -- After a batch each key of the replica reads as the last operation of the batch that names it
  -- leaves it, and as before if none does, if the files of the tables involved tell databases,
  -- tables and keys apart and a file that is to be removed is removed.
  pub get_raw-apply_batch :
      (os : List Operation) (db : ℕ) (table : String) (key : Bytes) (s : KvsState)
      → on_named named os ≡ true
      → named table ≡ true
      → get_raw x io db table key (apply_batch x io os s)
        ≡ replayed os db table key (get_raw x io db table key s)
  unfolding apply_batch
  get_raw-apply_batch [] db table key s h n = refl
  get_raw-apply_batch (o ∷ os) db table key s h n =
      get_raw-apply_batch os db table key (apply_operation x io o s) (ground (arith, h)) n
      ∙ ap (replayed os db table key)
          (get_raw-apply_type o.db_id o.table o.op db table key s (ground (arith, h)) n)
