-- ===== src/Wal/Log/Framed.antt =====
-- src/wal.rs: what a batch leaves in the log file of a database, and how it reads back.
use mathlib.Core.List.{append_assoc, append-nil}
use skvs.Prelude.{
  ℕ, zero, suc, ◌≤◌, Bool, true, false, not, ◌&&◌, ◌||◌, ◌≡◌, refl, sym, ap, ◌∙◌, subst, inl, inr,
  none, some, List, [], ◌∷◌, ◌++◌, length, take, keep, unwrap_or, nat_eq, nat_beq_iff, ◌==◌,
  Option-cases, Bool-cases, arith, if◌then◌else◌,
}
use skvs.Prelude.Map.{Map, lookup, insert, contains_key, lookup-insert, lookup-nil}
use skvs.State.{Bytes}
use skvs.Wal.Batch.{Operation}
use skvs.Wal.Log.{
  LogIo, group_ops, to_le_bytes, write_all, write_frame, write_ops, write_groups, write_batch,
}

-- The operations of a database, by their bytes; those without are left out.
abbrev pub for_db : ℕ → List Operation → List Operation
for_db db os = keep (λ o. o.db_id == db) os

abbrev frame : Bytes → Bytes
frame b = to_le_bytes (length b) ++ b

abbrev pub frames : List Bytes → Bytes
frames [] = []
frames (b ∷ bs) = frame b ++ frames bs

take-all {ℓ} : {A : Type ℓ} (xs : List A) (n : ℕ) → length xs ≤ n → take n xs ≡ xs
take-all [] zero h = refl
take-all [] (suc n) h = refl
take-all (x ∷ xs) zero h = ground (arith, h)
take-all (x ∷ xs) (suc n) h = ap (λ l. x ∷ l) (take-all xs n (ground (arith, h)))

module _ (io : LogIo) where
  abbrev pub encoded : List Operation → List Bytes
  encoded [] = []
  encoded (o ∷ os) = elim (io.serialize o) [ none ↦ encoded os | some b ↦ b ∷ encoded os ]

  -- The file system opens the file of the database and takes every byte.
  pub record Accepting (db : ℕ) : Type 0 where
    pub opens : io.can_open db ≡ true
    pub takes : (file buf : Bytes) → length buf ≤ io.accepts db file buf

  module _ (db : ℕ) (good : Accepting db) where
    write_all-Accepting : (buf file : Bytes) → write_all io db buf file ≡ (true, file ++ buf)
    unfolding write_all
    write_all-Accepting buf file =
        let n = io.accepts db file buf in
        rw (take-all buf n (good.takes file buf))
          (ap (λ b. (b, file ++ buf)) (ground (arith, good.takes file buf)))

    write_frame-Accepting : (b file : Bytes) → write_frame io db b file ≡ (true, file ++ frame b)
    unfolding write_frame
    write_frame-Accepting b file = rw (write_all-Accepting (to_le_bytes (length b)) file) (
        write_all-Accepting b (file ++ to_le_bytes (length b))
        ∙ ap (λ f. (true, f)) (append_assoc file (to_le_bytes (length b)) b))

    write_ops-Accepting :
        (os : List Operation) (file : Bytes) → write_ops io db os file ≡ file ++ frames (encoded os)
    unfolding write_ops
    write_ops-Accepting [] file = sym (append-nil file)
    write_ops-Accepting (o ∷ os) file = elim (Option-cases (io.serialize o)) [
      | inl e ↦ rw (e, write_ops, encoded) (write_ops-Accepting os file)
      | inr (b, e) ↦
          rw (e, write_ops, encoded)
            (rw (write_frame-Accepting b file) (
              write_ops-Accepting os (file ++ frame b)
              ∙ append_assoc file (frame b) (frames (encoded os))))
    ]

  -- A group of another database leaves the file alone.
  write_groups-other :
      (db : ℕ) (groups : Map ℕ (List Operation)) (files : Map ℕ Bytes)
      → lookup db groups ≡ none
      → lookup db (write_groups io groups files) ≡ lookup db files
  unfolding write_groups lookup
  write_groups-other db [] files h = refl
  write_groups-other db ((k, os) ∷ rest) files h =
      let file = write_ops io k os (unwrap_or (lookup k files) []) in
      let files' = if io.can_open k then insert k file files else files in
      write_groups-other db rest files' (ground (arith, h))
      ∙ ground (arith, h, lookup-insert k db file files)

  abbrev apart : Map ℕ (List Operation) → Bool
  apart [] = true
  apart ((k, os) ∷ rest) = not (contains_key k rest) && apart rest

  abbrev pub file_of : ℕ → Map ℕ Bytes → Bytes
  file_of db files = unwrap_or (lookup db files) []

  abbrev group_of : ℕ → Map ℕ (List Operation) → List Operation
  group_of db groups = unwrap_or (lookup db groups) []

  file_of-write_groups_head :
      (db : ℕ) (os : List Operation) (rest : Map ℕ (List Operation)) (files : Map ℕ Bytes)
      → Accepting db
      → contains_key db rest ≡ false
      → file_of db (write_groups io ((db, os) ∷ rest) files)
        ≡ file_of db files ++ frames (encoded os)
  unfolding write_groups
  file_of-write_groups_head db os rest files good a =
      let file = write_ops io db os (file_of db files) in
      let k : lookup db (insert db file files) ≡ some file =
        ground (arith, lookup-insert db db file files, nat_beq_iff db db) in
      rw (good.opens, write_groups)
        (ap (λ o. unwrap_or o [])
            (write_groups-other db rest (insert db file files) (ground (arith, a)) ∙ k)
          ∙ write_ops-Accepting db good os (file_of db files))

  file_of-write_groups :
      (db : ℕ) (groups : Map ℕ (List Operation)) (files : Map ℕ Bytes)
      → Accepting db
      → apart groups ≡ true
      → file_of db (write_groups io groups files)
        ≡ file_of db files ++ frames (encoded (group_of db groups))
  unfolding write_groups lookup
  file_of-write_groups db [] files good a = sym (append-nil (file_of db files))
  file_of-write_groups db ((k, os) ∷ rest) files good a =
      let file = write_ops io k os (unwrap_or (lookup k files) []) in
      let files' = if io.can_open k then insert k file files else files in
      elim (Bool-cases (k == db)) [
        | inl e ↦
            let j : k ≡ db = (nat_beq_iff k db).0 e in
            rw (e, lookup)
              (subst
                (λ i.
                  contains_key i rest ≡ false
                  → file_of db (write_groups io ((i, os) ∷ rest) files)
                    ≡ file_of db files ++ frames (encoded os))
                (sym j) (file_of-write_groups_head db os rest files good) (ground (arith, a)))
        | inr e ↦
            let u : lookup db files' ≡ lookup db files =
              ground (arith, lookup-insert k db file files, e) in
            rw (e, lookup)
              (file_of-write_groups db rest files' good (ground (arith, a))
                ∙ ap (λ o. unwrap_or o [] ++ frames (encoded (group_of db rest))) u)
      ]

  contains_key-insert :
      (j k : ℕ) (os : List Operation) (m : Map ℕ (List Operation))
      → contains_key j (insert k os m) ≡ (k == j || contains_key j m)
  contains_key-insert j k os m = ground (arith, lookup-insert k j os m)

  apart-insert :
      (k : ℕ) (os : List Operation) (m : Map ℕ (List Operation))
      → apart m ≡ true
      → apart (insert k os m) ≡ true
  unfolding insert lookup
  apart-insert k os [] a = refl
  apart-insert k os ((j, ps) ∷ m) a = ground (
    arith,
    a,
    apart-insert k os m,
    contains_key-insert j k os m,
    nat_beq_iff j k,
    nat_beq_iff k j,
  )

  group_of-group_ops :
      (db : ℕ) (os : List Operation) (m : Map ℕ (List Operation))
      → group_of db (group_ops os m) ≡ group_of db m ++ for_db db os
  unfolding group_ops
  group_of-group_ops db [] m = sym (append-nil (group_of db m))
  group_of-group_ops db (o ∷ os) m =
      let g = group_of o.db_id m ++ (o ∷ []) in
      group_of-group_ops db os (insert o.db_id g m) ∙ (elim (Bool-cases (o.db_id == db)) [
        | inl e ↦
            let u : lookup db (insert o.db_id g m) ≡ some g =
              ground (arith, lookup-insert o.db_id db g m, e) in
            rw e (
              ap (λ l. unwrap_or l [] ++ for_db db os) u
              ∙ ap (λ d. (group_of d m ++ o ∷ []) ++ for_db db os) ((nat_beq_iff o.db_id db).0 e)
              ∙ append_assoc (group_of db m) (o ∷ []) (for_db db os))
        | inr e ↦
            let u : lookup db (insert o.db_id g m) ≡ lookup db m =
              ground (arith, lookup-insert o.db_id db g m, e) in
            rw e (ap (λ l. unwrap_or l [] ++ for_db db os) u)
      ])

  apart-group_ops :
      (os : List Operation) (m : Map ℕ (List Operation))
      → apart m ≡ true
      → apart (group_ops os m) ≡ true
  unfolding group_ops
  apart-group_ops [] m a = a
  apart-group_ops (o ∷ os) m a = apart-group_ops os _ (apart-insert o.db_id _ m a)

  pub file_of-write_batch :
      (db : ℕ) (batch : List Operation) (files : Map ℕ Bytes)
      → Accepting db
      → file_of db (write_batch io batch files)
        ≡ file_of db files ++ frames (encoded (for_db db batch))
  unfolding write_batch
  file_of-write_batch db batch files good =
      file_of-write_groups db (group_ops batch []) files good (apart-group_ops batch [] refl)
      ∙ ap (λ os. file_of db files ++ frames (encoded os))
          (group_of-group_ops db batch []
            ∙ ap (λ o. unwrap_or o [] ++ for_db db batch) (lookup-nil {V = List Operation} db))
