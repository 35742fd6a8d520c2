-- ===== src/State/Rows.antt =====
-- src/state.rs: what can be seen of the tables of a state: which there are, and the rows by id.
use skvs.Prelude.{
  ℕ, String, Bool, ◌&&◌, ◌≡◌, refl, ◌∙◌, inl, inr, Option, none, some, is_some, nat_eq, string_eq,
  ◌==◌, nat_beq_iff, Option-cases, arith, if◌then◌else◌,
}
use text.Mathlib.TextEquality.{eq_iff}
use skvs.Prelude.Map.{Map, lookup, insert, remove, lookup-insert, lookup-remove}
use skvs.Prelude.Nested.{get_in, get_in-put_in}
use skvs.Value.{Row, RowId}
use skvs.State.{KvsState, Store, store_insert, store_remove}

abbrev pub Tables : Type 0
Tables = Map ℕ (Map String Store)

abbrev pub row_in : ℕ → String → RowId → Tables → Option Row
row_in d t r m = elim (get_in d t m) [ none ↦ none | some store ↦ lookup r store ]

abbrev pub row_at : ℕ → String → RowId → KvsState → Option Row
row_at d t r s = row_in d t r s.dbs

abbrev pub has_table : ℕ → String → Tables → Bool
has_table d t m = is_some (get_in d t m)

-- The two states have the same tables with the same rows.
pub record SameRows (m m' : Tables) : Type 0 where
  pub tables : (d : ℕ) (t : String) → has_table d t m ≡ has_table d t m'
  pub rows : (d : ℕ) (t : String) (r : RowId) → row_in d t r m ≡ row_in d t r m'

pub SameRows-refl : (m : Tables) → SameRows m m
SameRows-refl m = record { tables = λ d t. refl; rows = λ d t r. refl }

pub SameRows-of_eq : (m m' : Tables) → m ≡ m' → SameRows m m'
SameRows-of_eq m m' e = record { tables = λ d t. rw e; rows = λ d t r. rw e }

pub SameRows-trans : {a b c : Tables} → SameRows a b → SameRows b c → SameRows a c
SameRows-trans h k = record {
  tables = λ d t. h.tables d t ∙ k.tables d t;
  rows = λ d t r. h.rows d t r ∙ k.rows d t r;
}

-- One row set (`some`) or removed (`none`), on a table that is there.
abbrev pub at_row : ℕ → String → RowId → ℕ → String → RowId → Bool
at_row d t r d' t' r' = d == d' && t == t' && r == r'

module _ (d : ℕ) (t : String) (r : RowId) (s : KvsState) where
  pub has_table-store_insert :
      (row : Row) (d' : ℕ) (t' : String)
      → has_table d' t' (store_insert d t r row s).dbs ≡ has_table d' t' s.dbs
  unfolding store_insert
  has_table-store_insert row d' t' = elim (Option-cases (get_in d t s.dbs)) [
    | inl e ↦ ground arith
    | inr (store, e) ↦
        ground
          (arith, get_in-put_in d d' t t' (insert r row store) s.dbs, nat_beq_iff d d', eq_iff t t')
  ]

  pub row_in-store_insert :
      (row : Row) (d' : ℕ) (t' : String) (r' : RowId)
      → row_in d' t' r' (store_insert d t r row s).dbs
        ≡ (if at_row d t r d' t' r' && has_table d t s.dbs then some row else row_in d' t' r' s.dbs)
  unfolding store_insert
  row_in-store_insert row d' t' r' = elim (Option-cases (get_in d t s.dbs)) [
    | inl e ↦ ground arith
    | inr (store, e) ↦ ground (
      arith,
      get_in-put_in d d' t t' (insert r row store) s.dbs,
      lookup-insert r r' row store,
      nat_beq_iff d d',
      eq_iff t t',
    )
  ]

  pub has_table-store_remove :
      (d' : ℕ) (t' : String) → has_table d' t' (store_remove d t r s).dbs ≡ has_table d' t' s.dbs
  unfolding store_remove
  has_table-store_remove d' t' = elim (Option-cases (get_in d t s.dbs)) [
    | inl e ↦ ground arith
    | inr (store, e) ↦
        ground
          (arith, get_in-put_in d d' t t' (remove r store) s.dbs, nat_beq_iff d d', eq_iff t t')
  ]

  pub row_in-store_remove :
      (d' : ℕ) (t' : String) (r' : RowId)
      → row_in d' t' r' (store_remove d t r s).dbs
        ≡ (if at_row d t r d' t' r' then none else row_in d' t' r' s.dbs)
  unfolding store_remove
  row_in-store_remove d' t' r' = elim (Option-cases (get_in d t s.dbs)) [
    | inl e ↦ ground (arith, nat_beq_iff d d', eq_iff t t')
    | inr (store, e) ↦ ground (
      arith,
      get_in-put_in d d' t t' (remove r store) s.dbs,
      lookup-remove r r' store,
      nat_beq_iff d d',
      eq_iff t t',
    )
  ]
