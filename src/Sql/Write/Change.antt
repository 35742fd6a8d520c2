-- ===== src/Sql/Write/Change.antt =====
-- src/sql/dml.rs, src/index.rs: one row changed and the indexes told of it: what the indexes list.
use mathlib.Core.List.{Memᴰ}
use text.Mathlib.TextEquality.{eq_iff}
use skvs.Prelude.{
  ℕ, String, true, false, ◌≡◌, ◌⊎◌, refl, sym, ap, ◌∙◌, subst, inl, inr, Option, none, some, [],
  unwrap_or, nat_eq, string_eq, name_eq, nat_beq_iff, ◌==◌, Option-cases, Bool-cases, arith,
  if◌then◌else◌,
}
use skvs.Prelude.Map.{lookup, insert, remove, lookup-insert, lookup-remove}
use skvs.Prelude.Nested.{get_in, put_in, get_in-put_in}
use skvs.Externs.{Externs}
use skvs.Value.{Row, RowId}
use skvs.Schema.{IndexDef, TableSchema}
use skvs.BTree.{IndexStore}
use skvs.State.{KvsState, Store, get_schema, get_or_create_index_store}
use skvs.Index.{IndexOp, update_indexes}
use skvs.Index.Mirror.{Mirrors, PlainRow, add_row-Mirrors, remove_row-Mirrors, update_row-Mirrors}
use skvs.Index.Named.{names_apart, changed, index_store-update_each, index_store-update_each_other}

-- A row that a write adds, takes away or replaces.
pub data Change : Type 0 where
  added : Row → Change
  taken : Row → Change
  replaced : Row → Row → Change

abbrev pub before : Change → Option Row
before (added row) = none
before (taken row) = some row
before (replaced old new) = some old

-- The row that the index is told of, and how.
abbrev pub row_of : Change → Row
row_of (added row) = row
row_of (taken row) = row
row_of (replaced old new) = new

abbrev pub op_of : Change → IndexOp
op_of (added row) = IndexOp.insert
op_of (taken row) = IndexOp.delete
op_of (replaced old new) = IndexOp.update old

abbrev pub store_after : Change → RowId → Store → Store
store_after (added row) r m = insert r row m
store_after (taken row) r m = remove r m
store_after (replaced old new) r m = insert r new m

module _ (x : Externs) where
  changed-Mirrors :
      (c : Change) (r : RowId) (idx : IndexDef) (store : Store) (m : IndexStore)
      → Mirrors x idx store m
      → lookup r store ≡ before c
      → ((row : Row) → lookup r store ≡ some row → PlainRow x idx row)
      → PlainRow x idx (row_of c)
      → Mirrors x idx (store_after c r store) (changed x (op_of c) (row_of c) r idx m)
  changed-Mirrors (added row) r idx store m h e p q = add_row-Mirrors x idx row r store m h q e
  changed-Mirrors (taken row) r idx store m h e p q = remove_row-Mirrors x idx row r store m h q e
  changed-Mirrors (replaced old new) r idx store m h e p q =
      update_row-Mirrors x idx old new r store m h (p old e) q e

  plain-insert :
      (r : RowId) (idx : IndexDef) (store : Store) (q : RowId) (a row : Row)
      → ((q : RowId) (row : Row) → lookup q store ≡ some row → PlainRow x idx row)
      → PlainRow x idx a
      → lookup q (insert r a store) ≡ some row
      → PlainRow x idx row
  plain-insert r idx store q a row p k e = elim (Bool-cases (r == q)) [
    | inl b ↦ subst (PlainRow x idx) (ground (arith, lookup-insert r q a store, e, b)) k
    | inr b ↦ p q row (ground (arith, lookup-insert r q a store, e, b))
  ]

  plain-after :
      (c : Change) (r : RowId) (idx : IndexDef) (store : Store) (q : RowId) (row : Row)
      → ((q : RowId) (row : Row) → lookup q store ≡ some row → PlainRow x idx row)
      → PlainRow x idx (row_of c)
      → lookup q (store_after c r store) ≡ some row
      → PlainRow x idx row
  plain-after (added a) r idx store q row p k e = plain-insert r idx store q a row p k e
  plain-after (taken a) r idx store q row p k e =
      p q row (ground (arith, lookup-remove r q store, e))
  plain-after (replaced old new) r idx store q row p k e = plain-insert r idx store q new row p k e

  -- Each index of each table of the database lists under each value exactly the rows that have
  -- it; the indexes of a table have different names and no row has a real in an indexed column.
  pub record Synced (db : ℕ) (s : KvsState) : Type 0 where
    pub apart :
        (t : String) (schema : TableSchema)
        → get_schema db t s ≡ some schema
        → names_apart schema.indices ≡ true
    pub plain :
        (t : String) (schema : TableSchema) (store : Store) (idx : IndexDef)
        → get_schema db t s ≡ some schema
        → get_in db t s.dbs ≡ some store
        → Memᴰ idx schema.indices
        → (r : RowId) (row : Row) → lookup r store ≡ some row
        → PlainRow x idx row
    pub mirrors :
        (t : String) (schema : TableSchema) (store : Store) (idx : IndexDef)
        → get_schema db t s ≡ some schema
        → get_in db t s.dbs ≡ some store
        → Memᴰ idx schema.indices
        → Mirrors x idx store (get_or_create_index_store db t idx.name s)

  -- The state after a write: one row of one table changed, and the indexes told of it.
  pub record Written (db : ℕ) (t : String) (r : RowId) (c : Change) (store : Store)
      (s w s' : KvsState) : Type 0 where
    pub w_dbs : w.dbs ≡ put_in db t (store_after c r store) s.dbs
    pub w_schemas : w.schemas ≡ s.schemas
    pub w_indexes : w.indexes ≡ s.indexes
    pub dbs : s'.dbs ≡ w.dbs
    pub schemas : s'.schemas ≡ w.schemas
    pub indexes : s'.indexes ≡ (update_indexes x db t (row_of c) r (op_of c) w).indexes

  index_store-of_indexes :
      (db : ℕ) (t n : String) (s s' : KvsState)
      → s'.indexes ≡ s.indexes
      → get_or_create_index_store db t n s' ≡ get_or_create_index_store db t n s
  unfolding get_or_create_index_store
  index_store-of_indexes db t n s s' e = ap (λ m. unwrap_or (get_in db (t, n) m) []) e

  module _ (db : ℕ) (t : String) (r : RowId) (c : Change) (store : Store) (s w s' : KvsState)
      (h : Written db t r c store s w s') where
    schema-Written : (t' : String) → get_schema db t' s' ≡ get_schema db t' s
    unfolding get_schema
    schema-Written t' = ap (get_in db t') (h.schemas ∙ h.w_schemas)

    store-Written :
        (t' : String)
        → get_in db t' s'.dbs
          ≡ (if t == t' then some (store_after c r store) else get_in db t' s.dbs)
    store-Written t' =
        ap (get_in db t') (h.dbs ∙ h.w_dbs)
        ∙ ground (arith, get_in-put_in db db t t' (store_after c r store) s.dbs, nat_beq_iff db db)

    index-Written :
        (schema : TableSchema) (idx : IndexDef)
        → get_schema db t s ≡ some schema
        → names_apart schema.indices ≡ true
        → Memᴰ idx schema.indices
        → get_or_create_index_store db t idx.name s'
          ≡ changed x (op_of c) (row_of c) r idx (get_or_create_index_store db t idx.name s)
    unfolding update_indexes get_schema
    index-Written schema idx e a m =
        let k : get_schema db t w ≡ some schema = ap (get_in db t) h.w_schemas ∙ e in
        index_store-of_indexes db t idx.name (update_indexes x db t (row_of c) r (op_of c) w) s'
          h.indexes
        ∙ rw (k, update_indexes)
            (index_store-update_each x db t (row_of c) r (op_of c) schema.indices idx w a m)
        ∙ ap (changed x (op_of c) (row_of c) r idx)
            (index_store-of_indexes db t idx.name s w h.w_indexes)

    index-Written_other :
        (t' n : String)
        → (t == t') ≡ false
        → get_or_create_index_store db t' n s' ≡ get_or_create_index_store db t' n s
    unfolding update_indexes
    index-Written_other t' n e =
        index_store-of_indexes db t' n (update_indexes x db t (row_of c) r (op_of c) w) s' h.indexes
        ∙ (elim (Option-cases (get_schema db t w)) [
          | inl k ↦ rw (k, update_indexes) refl
          | inr (schema, k) ↦
              rw (k, update_indexes)
                (index_store-update_each_other x db t (row_of c) r (op_of c) schema.indices t' n w
                  (ground (arith, e)))
        ])
        ∙ index_store-of_indexes db t' n s w h.w_indexes

    module _ (synced : Synced db s) (stored : get_in db t s.dbs ≡ some store)
        (at_r : lookup r store ≡ before c)
        (plain_row : (schema : TableSchema) (idx : IndexDef)
          → get_schema db t s ≡ some schema
          → Memᴰ idx schema.indices
          → PlainRow x idx (row_of c)) where
      plain-Written :
          (schema : TableSchema) (idx : IndexDef)
          → get_schema db t s ≡ some schema
          → Memᴰ idx schema.indices
          → (q : RowId) (row : Row) → lookup q (store_after c r store) ≡ some row
          → PlainRow x idx row
      plain-Written schema idx e m q row =
          plain-after c r idx store q row (synced.plain t schema store idx e stored m)
            (plain_row schema idx e m)

      Mirrors-Written :
          (schema : TableSchema) (idx : IndexDef)
          → get_schema db t s ≡ some schema
          → Memᴰ idx schema.indices
          → Mirrors x idx (store_after c r store) (get_or_create_index_store db t idx.name s')
      Mirrors-Written schema idx e m =
          subst (Mirrors x idx (store_after c r store))
            (sym (index-Written schema idx e (synced.apart t schema e) m))
            (changed-Mirrors c r idx store (get_or_create_index_store db t idx.name s)
              (synced.mirrors t schema store idx e stored m) at_r
              (synced.plain t schema store idx e stored m r) (plain_row schema idx e m))

      -- The store of the changed table, or of another.
      store-cases :
          (t' : String) (store' : Store)
          → get_in db t' s'.dbs ≡ some store'
          → ((t ≡ t') × (store_after c r store ≡ store'))
            ⊎ (((t == t') ≡ false) × (get_in db t' s.dbs ≡ some store'))
      store-cases t' store' e = elim (Bool-cases (t == t')) [
        | inl k ↦ inl ((eq_iff t t').0 k, ground (arith, store-Written t', e, k))
        | inr k ↦ inr (k, ground (arith, store-Written t', e, k))
      ]

      pub Synced-Written : Synced db s'
      Synced-Written = record {
        apart = λ t' schema e. synced.apart t' schema (sym (schema-Written t') ∙ e);
        plain = λ t' schema store' idx e d m. elim (store-cases t' store' d) [
          | inl (k, l) ↦
              let a =
                subst (λ n. get_schema db n s ≡ some schema) (sym k)
                  (sym (schema-Written t') ∙ e) in
              subst (λ n. (q : RowId) (row : Row) → lookup q n ≡ some row → PlainRow x idx row) l
                (plain-Written schema idx a m)
          | inr (k, l) ↦ synced.plain t' schema store' idx (sym (schema-Written t') ∙ e) l m
        ];
        mirrors = λ t' schema store' idx e d m. elim (store-cases t' store' d) [
          | inl (k, l) ↦
              let a =
                subst (λ n. get_schema db n s ≡ some schema) (sym k)
                  (sym (schema-Written t') ∙ e) in
              subst (λ n. Mirrors x idx store' (get_or_create_index_store db n idx.name s')) k
                (subst (λ n. Mirrors x idx n (get_or_create_index_store db t idx.name s')) l
                  (Mirrors-Written schema idx a m))
          | inr (k, l) ↦
              subst (Mirrors x idx store') (sym (index-Written_other t' idx.name k))
                (synced.mirrors t' schema store' idx (sym (schema-Written t') ∙ e) l m)
        ];
      }
