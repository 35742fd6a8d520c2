-- ===== src/Index/Named.antt =====
-- src/index.rs: which of a state's indexes a changed row changes, and how.
use mathlib.Core.List.{Memᴰ}
use text.Mathlib.TextEquality.{eq_iff}
use skvs.Prelude.{
  ℕ, String, Bool, true, false, not, ◌&&◌, ◌≡◌, refl, ap, ◌∙◌, List, [], ◌∷◌, all, nat_eq,
  string_eq, name_eq, nat_beq_iff, ◌==◌, arith, if◌then◌else◌,
}
use skvs.Prelude.Nested.{get_in-put_in}
use skvs.Externs.{Externs}
use skvs.Value.{Row, RowId}
use skvs.Schema.{IndexDef}
use skvs.BTree.{IndexStore}
use skvs.State.{KvsState, get_or_create_index_store, set_index_store}
use skvs.Index.{
  IndexOp, insert, delete, update, add_row, remove_row, add_to_index, remove_from_index,
  update_index, update_each,
}

-- No two of the indexes have one name.
abbrev pub free_name : String → List IndexDef → Bool
free_name n is = all (λ i. not (i.name == n)) is

abbrev pub names_apart : List IndexDef → Bool
names_apart [] = true
names_apart (i ∷ is) = free_name i.name is && names_apart is

free_name-other :
    (n : String) (is : List IndexDef) (idx : IndexDef)
    → free_name n is ≡ true
    → Memᴰ idx is
    → (idx.name == n) ≡ false
free_name-other n [] idx h m = elim m [ ]
free_name-other n (i ∷ is) idx h (Memᴰ.head e) = rw e (ground (arith, h))
free_name-other n (i ∷ is) idx h (Memᴰ.tail m) = free_name-other n is idx (ground (arith, h)) m

module _ (x : Externs) where
  -- The change of one index.
  abbrev pub changed : IndexOp → Row → RowId → IndexDef → IndexStore → IndexStore
  changed insert row r idx m = add_row x idx row r m
  changed delete row r idx m = remove_row x idx row r m
  changed (update old) row r idx m = add_row x idx row r (remove_row x idx old r m)

  index_store-set :
      (db : ℕ) (t n : String) (m : IndexStore) (t' n' : String) (s : KvsState)
      → get_or_create_index_store db t' n' (set_index_store db t n m s)
        ≡ (if t == t' && n == n' then m else get_or_create_index_store db t' n' s)
  unfolding get_or_create_index_store set_index_store
  index_store-set db t n m t' n' s =
      ground (arith, get_in-put_in db db (t, n) (t', n') m s.indexes, nat_beq_iff db db)

  module _ (db : ℕ) (t : String) (row : Row) (r : RowId) where
    index_store-update_index :
        (op : IndexOp) (idx : IndexDef) (t' n : String) (s : KvsState)
        → get_or_create_index_store db t' n (update_index x db t row r op idx s) ≡ (
            if t == t' && idx.name == n
            then changed op row r idx (get_or_create_index_store db t idx.name s)
            else get_or_create_index_store db t' n s)
    unfolding update_index add_to_index remove_from_index
    index_store-update_index insert idx t' n s = index_store-set db t idx.name _ t' n s
    index_store-update_index delete idx t' n s = index_store-set db t idx.name _ t' n s
    index_store-update_index (update old) idx t' n s =
        let m = remove_row x idx old r (get_or_create_index_store db t idx.name s) in
        let s' = set_index_store db t idx.name m s in
        ground (
          arith,
          index_store-set db t idx.name
              (add_row x idx row r (get_or_create_index_store db t idx.name s')) t' n s',
          index_store-set db t idx.name m t idx.name s,
          index_store-set db t idx.name m t' n s,
          eq_iff t t,
          eq_iff idx.name idx.name,
        )

    -- An index of another table, or of a name that is not among them, stays as it is.
    pub index_store-update_each_other :
        (op : IndexOp) (is : List IndexDef) (t' n : String) (s : KvsState)
        → ((t == t') && not (free_name n is)) ≡ false
        → get_or_create_index_store db t' n (update_each x db t row r op is s)
          ≡ get_or_create_index_store db t' n s
    unfolding update_each
    index_store-update_each_other op [] t' n s h = refl
    index_store-update_each_other op (i ∷ is) t' n s h =
        let s' = update_index x db t row r op i s in
        index_store-update_each_other op is t' n s' (ground (arith, h))
        ∙ ground (arith, index_store-update_index op i t' n s, h)

    pub index_store-update_each :
        (op : IndexOp) (is : List IndexDef) (idx : IndexDef) (s : KvsState)
        → names_apart is ≡ true
        → Memᴰ idx is
        → get_or_create_index_store db t idx.name (update_each x db t row r op is s)
          ≡ changed op row r idx (get_or_create_index_store db t idx.name s)
    unfolding update_each
    index_store-update_each op [] idx s h m = elim m [ ]
    index_store-update_each op (i ∷ is) idx s h (Memᴰ.head e) =
        let s' = update_index x db t row r op i s in
        rw e (
          index_store-update_each_other op is t i.name s' (ground (arith, h))
          ∙ ground
              (arith, index_store-update_index op i t i.name s, eq_iff t t, eq_iff i.name i.name))
    index_store-update_each op (i ∷ is) idx s h (Memᴰ.tail m) =
        let s' = update_index x db t row r op i s in
        index_store-update_each op is idx s' (ground (arith, h)) m
        ∙ ap (changed op row r idx) (
            ground (
              arith,
              index_store-update_index op i t idx.name s,
              free_name-other i.name is idx (ground (arith, h)) m,
              eq_iff i.name idx.name,
              eq_iff idx.name i.name,
            ))
