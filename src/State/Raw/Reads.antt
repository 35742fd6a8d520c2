-- ===== src/State/Raw/Reads.antt =====
-- src/state.rs: a raw table reads as a map from keys to values, wherever its entries are kept.
use text.Mathlib.TextEquality.{eq_iff}
use skvs.Prelude.{
  ℕ, ◌-◌, String, Bool, true, false, ◌&&◌, ◌≡◌, refl, ◌∙◌, inl, inr, Option, none, some, List, [],
  ◌∷◌, unwrap_or, length, take, Option-cases, nat_eq, string_eq, path_eq, bytes_eq, list_beq_iff,
  nat_beq_iff, path_beq_iff, Bool-cases, ◌==◌, if◌then◌else◌, arith,
}
use skvs.Prelude.Map.{Map, keys, lookup, insert, remove, lookup-insert, lookup-remove, lookup-nil}
use skvs.Prelude.Nested.{get_in, get_in-put_in}
use skvs.Externs.{Externs}
use skvs.State.{KvsState, Bytes, FilePath, OverflowIo}
use skvs.State.Raw.{
  Tier, overflow_path, evict_key, evict_keys, evict_to_disk, put_tier, put_raw, write_overflow_file,
  remove_overflow_file, get_raw, remove_raw,
}

-- The files of the named tables tell databases, tables and keys apart.
abbrev pub Apart : Externs → OverflowIo → (String → Bool) → Type 0
Apart x io named =
    (db db' : ℕ) (table table' : String) (a b : Bytes)
    → named table ≡ true
    → named table' ≡ true
    → overflow_path x io db table a ≡ overflow_path x io db' table' b
    → db ≡ db' × table ≡ table' × a ≡ b

module _ (x : Externs) (io : OverflowIo) (named : String → Bool) (apart : Apart x io named) where
  -- What a key of a table reads as: the entry in memory, or else the file.
  abbrev tier_get : ℕ → String → Bytes → Tier x io → Option Bytes
  tier_get db table key (m, files) = elim (lookup key m) [
    | some v ↦ some v
    | none ↦ lookup (overflow_path x io db table key) files
  ]

  path-apart :
      (db db' : ℕ) (table table' : String) (a b : Bytes)
      → named table ≡ true
      → named table' ≡ true
      → (overflow_path x io db table a == overflow_path x io db' table' b)
        ≡ (db == db' && table == table' && a == b)
  path-apart db db' table table' a b h h' =
      let p = overflow_path x io db table a in
      let p' = overflow_path x io db' table' b in
      elim (Bool-cases (p == p')) [
        | inl e ↦
            let (d, t, k) = apart db db' table table' a b h h' ((path_beq_iff p p').0 e) in
            ground (arith, e, nat_beq_iff db db', eq_iff table table', list_beq_iff a b)
        | inr e ↦
            ground
              (arith, path_beq_iff p p', nat_beq_iff db db', eq_iff table table', list_beq_iff a b)
      ]

  path-key :
      (db : ℕ) (table : String) (a b : Bytes)
      → named table ≡ true
      → (overflow_path x io db table a == overflow_path x io db table b) ≡ (a == b)
  path-key db table a b h =
      ground (arith, path-apart db db table table a b h h, nat_beq_iff db db, eq_iff table table)

  -- A write, also one that fails, changes its own file only.
  lookup-write_overflow_file :
      (db : ℕ) (table : String) (k v : Bytes) (files : Map FilePath Bytes) (q : FilePath)
      → (overflow_path x io db table k == q) ≡ false
      → lookup q (write_overflow_file x io db table k v files).1 ≡ lookup q files
  lookup-write_overflow_file db table k v files q h =
      let p = overflow_path x io db table k in
      elim (Option-cases (io.partly p v)) [
        | inl e ↦ ground (arith, lookup-insert p q v files)
        | inr (b, e) ↦ ground (arith, lookup-insert p q v files, lookup-insert p q b files)
      ]

  tier_get-evict_key :
      (db : ℕ) (table : String) (k j : Bytes) (m : Map Bytes Bytes) (files : Map FilePath Bytes)
      → named table ≡ true
      → tier_get db table j (evict_key x io db table k (m, files)) ≡ tier_get db table j (m, files)
  unfolding evict_key
  tier_get-evict_key db table k j m files n = elim (Option-cases (lookup k m)) [
    | inl e ↦ ground arith
    | inr (v, e) ↦
        let p = overflow_path x io db table k in
        ground (
          arith,
          lookup-insert k j v (remove k m),
          lookup-remove k j m,
          lookup-insert p (overflow_path x io db table j) v files,
          lookup-write_overflow_file db table k v files (overflow_path x io db table j),
          path-key db table k j n,
          list_beq_iff k j,
        )
  ]

  tier_get-evict_keys :
      (db : ℕ) (table : String) (ks : List Bytes) (j : Bytes) (t : Tier x io)
      → named table ≡ true
      → tier_get db table j (evict_keys x io db table ks t) ≡ tier_get db table j t
  unfolding evict_keys
  tier_get-evict_keys db table [] j t n = refl
  tier_get-evict_keys db table (k ∷ ks) j (m, files) n =
      tier_get-evict_keys db table ks j (evict_key x io db table k (m, files)) n
      ∙ tier_get-evict_key db table k j m files n

  -- A file of a named table.
  abbrev file_of : ℕ → String → Bytes → Map FilePath Bytes → Option Bytes
  file_of db table j files = lookup (overflow_path x io db table j) files

  module _ (db db' : ℕ) (table table' : String) (n : named table ≡ true) (n' : named table' ≡ true)
      (other : (db == db' && table == table') ≡ false) where
    files-evict_key :
        (k j : Bytes) (m : Map Bytes Bytes) (files : Map FilePath Bytes)
        → file_of db' table' j (evict_key x io db table k (m, files)).1 ≡ file_of db' table' j files
    unfolding evict_key
    files-evict_key k j m files = elim (Option-cases (lookup k m)) [
      | inl e ↦ ground arith
      | inr (v, e) ↦
          let p = overflow_path x io db table k in
          ground (
            arith,
            lookup-write_overflow_file db table k v files (overflow_path x io db' table' j),
            path-apart db db' table table' k j n n',
          )
    ]

    files-evict_keys :
        (ks : List Bytes) (j : Bytes) (t : Tier x io)
        → file_of db' table' j (evict_keys x io db table ks t).1 ≡ file_of db' table' j t.1
    unfolding evict_keys
    files-evict_keys [] j t = refl
    files-evict_keys (k ∷ ks) j (m, files) =
        files-evict_keys ks j (evict_key x io db table k (m, files)) ∙ files-evict_key k j m files

    files-put_tier :
        (limit : ℕ) (k j v : Bytes) (m : Map Bytes Bytes) (files : Map FilePath Bytes)
        → file_of db' table' j (put_tier x io db table limit k v (m, files)).1
          ≡ file_of db' table' j files
    unfolding put_tier evict_to_disk remove_overflow_file
    files-put_tier limit k j v m files =
        let m' = insert k v m in
        let p = overflow_path x io db table k in
        let files' = remove_overflow_file x io db table k files in
        let t : Tier x io = (m', files') in
        ground (
          arith,
          files-evict_keys (take (length m' - limit) (x.dash_order (keys m'))) j t,
          lookup-remove p (overflow_path x io db' table' j) files,
          path-apart db db' table table' k j n n',
        )

  tier_get-put_tier :
      (db : ℕ) (table : String) (limit : ℕ) (k j v : Bytes) (m : Map Bytes Bytes)
      (files : Map FilePath Bytes)
      → named table ≡ true
      → tier_get db table j (put_tier x io db table limit k v (m, files))
        ≡ (if k == j then some v else tier_get db table j (m, files))
  unfolding put_tier evict_to_disk remove_overflow_file
  tier_get-put_tier db table limit k j v m files n =
      let m' = insert k v m in
      let p = overflow_path x io db table k in
      let t : Tier x io = (m', remove_overflow_file x io db table k files) in
      ground (
        arith,
        tier_get-evict_keys db table (take (length m' - limit) (x.dash_order (keys m'))) j t n,
        lookup-insert k j v m,
        lookup-remove p (overflow_path x io db table j) files,
        path-key db table k j n,
      )

  in_memory-get :
      (db : ℕ) (table : String) (key : Bytes) (s : KvsState)
      → get_raw x io db table key s
        ≡ tier_get db table key (unwrap_or (get_in db table s.raw_stores) [], s.overflow_files)
  unfolding get_raw
  in_memory-get db table key s = ground (arith, lookup-nil {V = Bytes} key)

  -- After a put its key reads as the value put and every other key of every table as before,
  -- whichever keys were evicted to files and whichever files could not be written or removed, if
  -- the files of the tables involved tell databases, tables and keys apart.
  pub get_raw-put_raw :
      (db db' : ℕ) (table table' : String) (k j v : Bytes) (s : KvsState)
      → named table ≡ true
      → named table' ≡ true
      → get_raw x io db' table' j (put_raw x io db table k v s)
        ≡ (if db == db' && table == table' && k == j then some v else get_raw x io db' table' j s)
  unfolding put_raw
  get_raw-put_raw db db' table table' k j v s n n' =
      let s' = put_raw x io db table k v s in
      let m = unwrap_or (get_in db table s.raw_stores) [] in
      let t = put_tier x io db table s.max_entries_per_table k v (m, s.overflow_files) in
      let reads = in_memory-get db' table' j in
      let stored = get_in-put_in db db' table table' t.0 s.raw_stores in
      elim (Bool-cases (db == db' && table == table')) [
        | inl e ↦ ground (
          arith,
          reads s',
          reads s,
          stored,
          tier_get-put_tier db table s.max_entries_per_table k j v m s.overflow_files n,
          nat_beq_iff db db',
          eq_iff table table',
        )
        | inr e ↦ ground (
          arith,
          reads s',
          reads s,
          stored,
          files-put_tier db db' table table' n n' e s.max_entries_per_table k j v m
              s.overflow_files,
        )
      ]

  -- After a removal its key reads as absent, or as the value in its file where there is a file and
  -- it cannot be removed, and every other key of every table reads as before, if the files of the
  -- tables involved tell databases, tables and keys apart.
  pub get_raw-remove_raw :
      (db db' : ℕ) (table table' : String) (k j : Bytes) (s : KvsState)
      → named table ≡ true
      → named table' ≡ true
      → let p = overflow_path x io db table k in
        get_raw x io db' table' j (remove_raw x io db table k s) ≡ (
          if db == db' && table == table' && k == j
          then (if io.removes p then none else lookup p s.overflow_files)
          else get_raw x io db' table' j s)
  unfolding remove_raw remove_overflow_file
  get_raw-remove_raw db db' table table' k j s n n' =
      let m = unwrap_or (get_in db table s.raw_stores) [] in
      let p = overflow_path x io db table k in
      ground (
        arith,
        in_memory-get db' table' j (remove_raw x io db table k s),
        in_memory-get db' table' j s,
        get_in-put_in db db' table table' (remove k m) s.raw_stores,
        lookup-remove k j m,
        lookup-nil {V = Bytes} j,
        lookup-remove p (overflow_path x io db' table' j) s.overflow_files,
        path-apart db db' table table' k j n n',
        nat_beq_iff db db',
        eq_iff table table',
        list_beq_iff k j,
      )
