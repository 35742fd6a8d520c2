-- ===== src/State/Raw/Limit.antt =====
-- src/state.rs: the entries of a raw table that stay in memory.
use text.Mathlib.TextEquality.{eq_iff}
use skvs.Prelude.{
  ℕ, zero, suc, ◌+◌, ◌-◌, List, ◌≤◌, ◌<◌, String, Bool, true, false, not, ◌&&◌, ◌||◌, ◌≡◌, refl,
  sym, ap, subst, inl, inr, some, [], ◌∷◌, length, take, unwrap_or, ltb, nat_eq, string_eq, path_eq,
  bytes_eq, nat_beq_iff, list_beq_iff, ◌==◌, Bool-cases, arith,
}
use skvs.Prelude.Map.{Map, keys, lookup, insert, remove, contains_key, lookup-insert, lookup-remove}
use skvs.Prelude.Nested.{get_in, put_in, get_in-put_in}
use skvs.Externs.{Externs}
use skvs.State.{KvsState, Bytes, FilePath, OverflowIo}
use skvs.State.Raw.{
  evict_key, evict_keys, evict_to_disk, put_tier, put_raw, overflow_path, remove_overflow_file,
}

abbrev Entries : Type 0
Entries = Map Bytes Bytes

-- No key twice.
abbrev pub apart_entries : Entries → Bool
apart_entries [] = true
apart_entries ((k, v) ∷ m) = not (contains_key k m) && apart_entries m

pub remove-absent : (k : Bytes) (m : Entries) → contains_key k m ≡ false → remove k m ≡ m
unfolding remove lookup
remove-absent k [] h = refl
remove-absent k ((j, v) ∷ m) h = ground (arith, h, remove-absent k m)

contains_key-insert :
    (j k v : Bytes) (m : Entries) → contains_key j (insert k v m) ≡ (k == j || contains_key j m)
contains_key-insert j k v m = ground (arith, lookup-insert k j v m)

apart_entries-insert :
    (k v : Bytes) (m : Entries) → apart_entries m ≡ true → apart_entries (insert k v m) ≡ true
unfolding insert lookup
apart_entries-insert k v [] a = refl
apart_entries-insert k v ((j, w) ∷ m) a = ground (
  arith,
  a,
  apart_entries-insert k v m,
  contains_key-insert j k v m,
  list_beq_iff j k,
  list_beq_iff k j,
)

contains_key-remove :
    (j k : Bytes) (m : Entries) → contains_key j (remove k m) ≡ (not (k == j) && contains_key j m)
contains_key-remove j k m = ground (arith, lookup-remove k j m)

apart_entries-remove :
    (k : Bytes) (m : Entries) → apart_entries m ≡ true → apart_entries (remove k m) ≡ true
unfolding remove lookup
apart_entries-remove k [] a = refl
apart_entries-remove k ((j, w) ∷ m) a =
    ground (arith, a, apart_entries-remove k m, contains_key-remove j k m)

length-remove :
    (k : Bytes) (m : Entries)
    → apart_entries m ≡ true
    → contains_key k m ≡ true
    → suc (length (remove k m)) ≡ length m
unfolding remove lookup
length-remove k [] a h = absurd (ground arith)
length-remove k ((j, w) ∷ m) a h =
    ground (arith, a, h, length-remove k m, remove-absent k m, list_beq_iff j k, list_beq_iff k j)

-- Keys of a table, each once.
abbrev pub distinct_in : Entries → List Bytes → Bool
distinct_in m [] = true
distinct_in m (k ∷ ks) = contains_key k m && distinct_in (remove k m) ks

-- An order of iteration gives every key of a map that has none twice, each once.
abbrev pub GivesKeys : (List Bytes → List Bytes) → Type 0
GivesKeys order =
    (m : Entries)
    → apart_entries m ≡ true
    → distinct_in m (order (keys m)) ≡ true × length (order (keys m)) ≡ length m

distinct_in-take :
    (n : ℕ) (m : Entries) (ks : List Bytes)
    → distinct_in m ks ≡ true
    → distinct_in m (take n ks) ≡ true
distinct_in-take zero m ks h = refl
distinct_in-take (suc n) m [] h = refl
distinct_in-take (suc n) m (k ∷ ks) h = ground (arith, h, distinct_in-take n (remove k m) ks)

length-take : (n : ℕ) (ks : List Bytes) → n ≤ length ks → length (take n ks) ≡ n
length-take zero ks h = refl
length-take (suc n) [] h = absurd (ground arith)
length-take (suc n) (k ∷ ks) h = ground (arith, length-take n ks)

-- What a table keeps in memory: no key twice, and at most so many entries.
abbrev pub Within : ℕ → Entries → Type 0
Within limit m = (apart_entries m ≡ true) × (length m ≤ limit)

-- The entries of a table in memory.
abbrev pub memory_of : ℕ → String → KvsState → Entries
memory_of db table s = unwrap_or (get_in db table s.raw_stores) []

module _ (x : Externs) (io : OverflowIo) (writable : (p : FilePath) → io.writes p ≡ true)
    (order : GivesKeys x.dash_order) (db : ℕ) (table : String) where
  -- An entry goes to its file.
  memory-evict_key :
      (k : Bytes) (m : Entries) (files : Map FilePath Bytes)
      → contains_key k m ≡ true
      → (evict_key x io db table k (m, files)).0 ≡ remove k m
  unfolding evict_key
  memory-evict_key k m files h = ground (arith, writable (overflow_path x io db table k))

  evict_keys-length :
      (ks : List Bytes) (m : Entries) (files : Map FilePath Bytes)
      → apart_entries m ≡ true
      → distinct_in m ks ≡ true
      → let m' = (evict_keys x io db table ks (m, files)).0 in
        apart_entries m' ≡ true × length m' + length ks ≡ length m
  unfolding evict_keys
  evict_keys-length [] m files a h = (a, ground arith)
  evict_keys-length (k ∷ ks) m files a h =
      let t = evict_key x io db table k (m, files) in
      let c : contains_key k m ≡ true = ground (arith, h) in
      let e = memory-evict_key k m files c in
      let (b, l) =
        evict_keys-length ks t.0 t.1 (rw e (apart_entries-remove k m a))
          (rw e (ground (arith, h))) in
      (b, ground (arith, l, ap length e, length-remove k m a c))

  evict_to_disk-Within :
      (limit : ℕ) (m : Entries) (files : Map FilePath Bytes)
      → apart_entries m ≡ true
      → Within limit (evict_to_disk x io db table limit (m, files)).0
  unfolding evict_to_disk
  evict_to_disk-Within limit m files a =
      let n = length m - limit in
      let ks = x.dash_order (keys m) in
      let (d, e) = order m a in
      let (b, l) = evict_keys-length (take n ks) m files a (distinct_in-take n m ks d) in
      (b, ground (arith, l, length-take n ks, e))

  put_tier-Within :
      (limit : ℕ) (key value : Bytes) (m : Entries) (files : Map FilePath Bytes)
      → 0 < limit
      → apart_entries m ≡ true
      → Within limit (put_tier x io db table limit key value (m, files)).0
  unfolding put_tier
  put_tier-Within limit key value m files h a =
      let m' = insert key value m in
      let files' = remove_overflow_file x io db table key files in
      let b = apart_entries-insert key value m a in
      elim (Bool-cases (ltb 0 limit && ltb limit (length m'))) [
        | inl e ↦ rw (e, put_tier) (evict_to_disk-Within limit m' files' b)
        | inr e ↦ rw (e, put_tier) (b, ground (arith, h, e))
      ]

  -- After a put the table has at most as many entries in memory as the limit allows, however many
  -- it had before, and no key twice, if the limit is not zero, the table had no key twice, every
  -- file can be written, and the iteration of a map gives each of its keys once.
  pub put_raw-Within :
      (key value : Bytes) (s : KvsState)
      → 0 < s.max_entries_per_table
      → apart_entries (memory_of db table s) ≡ true
      → Within s.max_entries_per_table (memory_of db table (put_raw x io db table key value s))
  unfolding put_raw
  put_raw-Within key value s h a =
      let m =
        (put_tier x io db table s.max_entries_per_table key value
          (memory_of db table s, s.overflow_files)).0 in
      let e : get_in db table (put_in db table m s.raw_stores) ≡ some m = ground (
        arith,
        get_in-put_in db db table table m s.raw_stores,
        nat_beq_iff db db,
        eq_iff table table,
      ) in
      subst (Within s.max_entries_per_table) (sym (ap (λ o. unwrap_or o []) e)) (
        put_tier-Within s.max_entries_per_table key value (memory_of db table s) s.overflow_files h
          a)
